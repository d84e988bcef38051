-- ===== src/Http/Client.antt =====
-- http_server/http/Client.cpp without the upload: a connection of a client process. What the TLS
-- library and the client do are arguments.
use ivos.Base.{
  ℕ, ◌+◌, ◌-◌, ◌==◌, leb, Bool, true, false, List, [], ◌∷◌, ◌++◌, Option, none, some, Outcome, done,
  fault, ◌>>=◌, if◌then◌else◌, length, take, maybe,
}
use ivos.Http.Text.{Text, codes, drop, find}
use ivos.Http.Request.{Request, Fields, field_get, crlf, parse, get_path_extension}
use ivos.Http.Response.{Response, new_response, create_string_response}

-- The object, and what has been done to the connection: the texts written, and how often it was shut
-- down, its TLS state freed and its socket closed.
pub record Client : Type 0 where
  pub remainder : Text
  pub remaining_size : ℕ
  pub is_open : Bool
  pub peer_disconnected : Bool
  pub written : List Text
  pub shutdowns : ℕ
  pub frees : ℕ
  pub closes : ℕ

unfoldable pub close : Client → Client
close c =
    if c.is_open
    then record c {
      shutdowns = if c.peer_disconnected then c.shutdowns else c.shutdowns + 1;
      frees = c.frees + 1;
      closes = c.closes + 1;
      is_open = false;
    }
    else c

abbrev pub fresh_client : Client
fresh_client = record {
  remainder = [];
  remaining_size = 0;
  is_open = true;
  peer_disconnected = false;
  written = [];
  shutdowns = 0;
  frees = 0;
  closes = 0;
}

-- The constructor; `accepted` is whether SSL_accept succeeded.
unfoldable pub new_client : (accepted : Bool) → Client
unfolding close
new_client accepted = if accepted then fresh_client else close fresh_client

unfoldable pub send : Response → Client → Client
send r c = if c.is_open then record c { written = c.written ++ (r.response ∷ []) } else c

-- What SSL_read returns: -1, 0, or a count with as many bytes.
pub data Reading : Type 0 where
  failed ended : Reading
  chunk : Text → Reading

abbrev pub buffer_size : ℕ
buffer_size = 1024

-- A C string ends at its first zero.
abbrev pub until_zero : Text → Text
until_zero [] = []
until_zero (c ∷ s) = let rest = until_zero s in if c == 0 then [] else c ∷ rest

-- strstr in a buffer that is zero behind the bytes read: `fault` where there is no room for a zero and
-- the search runs out of the buffer.
abbrev pub strstr_buffer : (size : ℕ) → (bytes pattern : Text) → Outcome (Option ℕ)
strstr_buffer size bytes pattern =
    maybe (find pattern (until_zero bytes))
      (if leb size (length (until_zero bytes)) then fault else done none) λ p. done (some p)

-- With the bytes up to the blank line copied to an array of just their size, which has no zero at its
-- end: `beyond` is what lies behind the array, up to a zero.
unfoldable pub take_headers :
    (bytes beyond : Text) → Client → Request → Outcome (Client × Request × Bool)
take_headers bytes beyond c r = do
  pos ← strstr_buffer buffer_size bytes (crlf ++ crlf)
  maybe pos (done (record c { remainder = [] }, r, true)) λ p.
      parse (until_zero (take (p + 4) bytes ++ beyond)) r >>= λ r'. done (
        record c { remainder = drop (p + 4) bytes; remaining_size = length bytes - (p + 4) },
        r',
        true,
      )

unfoldable pub receive_headers :
    Reading → (beyond : Text) → Client → Request → Outcome (Client × Request × Bool)
unfolding close take_headers
receive_headers failed beyond c r = done (close c, r, false)
receive_headers ended beyond c r = done (close (record c { peer_disconnected = true }), r, false)
receive_headers (chunk bytes) beyond c r = take_headers bytes beyond c r

-- _runners, whose operator [] gives the empty text where it has no key.
abbrev pub runners : Fields
runners =
    (codes "py", codes "python3") ∷ (codes "sh", codes "bash") ∷ (codes "php", codes "php") ∷ []

abbrev pub runner : (extension : Text) → Text
runner extension = maybe (field_get extension runners) [] λ program. program

-- What the child becomes: a program, with its own name and the script's as its arguments.
abbrev pub script_command : Request → Text × List Text
script_command r =
    let program = runner (get_path_extension r) in (program, program ∷ (codes "www" ++ r.path) ∷ [])

-- The loop over the reads of the pipe, up to one that has nothing or fails.
unfoldable pub read_output : (reads : List Text) → Text
read_output [] = []
read_output ([] ∷ reads) = []
read_output ((byte ∷ bytes) ∷ reads) = (byte ∷ bytes) ++ read_output reads

-- What the reads of the pipe give when a program is run, `none` where no pipe can be made. There is
-- nothing to read where fork fails, and where there is no such program.
abbrev pub Pipe : Type 0
Pipe = Text × List Text → Option (List Text)

unfoldable pub execute_script : Pipe → Request → Client → Client
unfolding send read_output
execute_script pipe r c =
    maybe (pipe (script_command r)) c
      λ reads. send (create_string_response (read_output reads) new_response) c
