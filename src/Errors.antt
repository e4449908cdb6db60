-- ===== src/Errors.antt =====
-- src/result.rs: the error type. The errors of the standard library and of other crates are
-- records of the answers that this code asks them for: a kind, an errno, a description, a text.
use xnet_socket.Base.{ℕ, [], ◌∷◌, ◌++◌, Option, none, some, Str, str, StdResult}

-- `std::io::ErrorKind`, as far as the code tells its values apart.
pub data IoKind : Type 0 where
  would_block interrupted not_found other : IoKind

pub record IoError : Type 0 where
  pub kind : IoKind
  pub raw_os_error : Option ℕ
  pub description : Str
  pub display : Str

pub record Utf8Error : Type 0 where
  pub description : Str
  pub display : Str

-- The value of `httparse::Error`; the match of `From` names them all.
pub data HttpError : Type 0 where
  header_name header_value new_line status token too_many_headers version : HttpError

-- `mio::channel::SendError<Command>`: an I/O error, or another one with this text.
pub data SendError : Type 0 where
  io : IoError → SendError
  refused : Str → SendError

-- `mio::timer::TimerError`, with its text.
pub data TimerError : Type 0 where
  timer : Str → TimerError

-- `Box<StdError + Send + Sync>`.
pub record BoxedError : Type 0 where
  pub description : Str
  pub display : Str

pub data Kind : Type 0 where
  internal capacity protocol : Kind
  encoding : Utf8Error → Kind
  io : IoError → Kind
  http : HttpError → Kind
  queue : SendError → Kind
  timer : TimerError → Kind
  custom : BoxedError → Kind

pub record Error : Type 0 where
  pub kind : Kind
  pub details : Str

abbrev pub Result : Type 0 → Type 0
Result A = StdResult A Error

abbrev pub IoResult : Type 0 → Type 0
IoResult A = StdResult A IoError

-- `Error::new`.
abbrev pub new_error : Kind → Str → Error
new_error kind details = record { kind = kind; details = details }

-- `Box<StdError>`: the boxed error itself, or this error in a box.
pub data Boxed : Type 0 where
  unwrapped : BoxedError → Boxed
  whole : Error → Boxed

into_box_kind : Kind → Error → Boxed
into_box_kind (Kind.custom b) e = unwrapped b
into_box_kind _ e = whole e

unfoldable pub into_box : Error → Boxed
unfolding into_box_kind
into_box e = into_box_kind e.kind e

unfoldable pub kind_description : Kind → Str
kind_description Kind.internal = str "Internal Application Error"
kind_description Kind.capacity = str "Socket at Capacity"
kind_description Kind.protocol = str "Socket Protocol Error"
kind_description (Kind.encoding e) = e.description
kind_description (Kind.io e) = e.description
kind_description (Kind.http e) = str "Unable to parse HTTP"
kind_description (Kind.queue e) = str "Unable to send signal on event loop"
kind_description (Kind.timer e) = str "Unable to schedule timeout on event loop"
kind_description (Kind.custom e) = e.description

unfoldable pub description : Error → Str
unfolding kind_description
description e = kind_description e.kind

-- The `Option<&StdError>` of `cause`.
pub data Cause : Type 0 where
  encoding : Utf8Error → Cause
  io : IoError → Cause
  custom : BoxedError → Cause

kind_cause : Kind → Option Cause
kind_cause (Kind.encoding e) = some (Cause.encoding e)
kind_cause (Kind.io e) = some (Cause.io e)
kind_cause (Kind.custom e) = some (Cause.custom e)
kind_cause _ = none

unfoldable pub cause : Error → Option Cause
unfolding kind_cause
cause e = kind_cause e.kind

-- `impl Display`; the test is `self.details.len() > 0`.
unfoldable pub display : Error → Str
display e = elim e.details [ [] ↦ description e | c ∷ cs ↦ description e ++ (str ": " ++ (c ∷ cs)) ]

-- `impl Debug`, over the derived `Debug` of `Kind`.
unfoldable pub debug : (kind_debug : Kind → Str) → Error → Str
debug kind_debug e = elim e.details [
  | [] ↦ str "Error <" ++ (kind_debug e.kind ++ str ">")
  | c ∷ cs ↦ str "Error <" ++ (kind_debug e.kind ++ (str ">: " ++ (c ∷ cs)))
]

-- The `From` conversions.
unfoldable pub from_io : IoError → Error
from_io e = new_error (Kind.io e) e.display

http_details : HttpError → Str
http_details HttpError.header_name = str "Invalid byte in header name."
http_details HttpError.header_value = str "Invalid byte in header value."
http_details HttpError.new_line = str "Invalid byte in new line."
http_details HttpError.status = str "Invalid byte in Response status."
http_details HttpError.token = str "Invalid byte where token is required."
http_details HttpError.too_many_headers =
    str "Parsed more headers than provided buffer can contain."
http_details HttpError.version = str "Invalid byte in HTTP version."

unfoldable pub from_http : HttpError → Error
unfolding http_details
from_http e = new_error (Kind.http e) (http_details e)

unfoldable pub from_send : SendError → Error
from_send (SendError.io e) = new_error (Kind.io e) e.display
from_send (SendError.refused text) = new_error (Kind.queue (SendError.refused text)) text

unfoldable pub from_timer : TimerError → Error
from_timer (TimerError.timer text) = new_error (Kind.timer (TimerError.timer text)) text

unfoldable pub from_utf8_error : Utf8Error → Error
from_utf8_error e = new_error (Kind.encoding e) e.display

unfoldable pub from_box : BoxedError → Error
from_box b = new_error (Kind.custom b) b.display
