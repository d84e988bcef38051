-- ===== src/Http/Upload.antt =====
-- `Client::handle_post` of http_server/http/Client.cpp: the parts of a form are appended to files.
pub mod Body
mod Tests
use ivos.Base.{
  ℕ, zero, suc, ◌+◌, ◌-◌, ◌==◌, ltb, leb, ◌||◌, Bool, List, [], ◌∷◌, ◌++◌, Option, none, some,
  Outcome, done, fault, runs_on, ◌>>=◌, if◌then◌else◌, length, take, maybe,
}
use ivos.Http.Text.{Text, codes, drop, find, string_split}
use ivos.Http.Text.Decimal.{read_number}
use ivos.Http.Request.{Request, crlf, first_token, second, get_field}
use ivos.Http.Response.{create_created_response, new_response}
use ivos.Http.Client.{
  Client, Reading, failed, ended, chunk, buffer_size, until_zero, strstr_buffer, send,
}

-- The open file, all that has been written to files, and the count of body bytes received.
pub record Upload : Type 0 where
  pub filename : Text
  pub writes : List (Text × Text)
  pub current_length : ℕ

abbrev pub write_to : Upload → (bytes : Text) → Upload
write_to u bytes = record u { writes = u.writes ++ ((u.filename, bytes) ∷ []) }

-- filename.erase(std::remove(…, '\"'), …)
abbrev pub unquoted : Text → Text
unquoted [] = []
unquoted (c ∷ s) = let rest = unquoted s in if c == 34 then rest else c ∷ rest

-- The name behind the first `filename=`, up to the end of its line.
unfoldable pub filename_of : Text → Outcome Text
filename_of s = do
  parts ← string_split s (codes "filename=")
  name ← second parts
  lines ← string_split name crlf
  done (unquoted (first_token lines))

abbrev skip_spaces : Text → Text
skip_spaces [] = []
skip_spaces (c ∷ s) = let rest = skip_spaces s in if c == 0x20 then rest else c ∷ s

-- atoi, of a number without a sign.
abbrev pub content_length : Request → ℕ
content_length r = read_number 0 (skip_spaces (get_field (codes "Content-Length") r))

-- What arrived together with the head of the request: the head of the first part and its start. With
-- it the new `_remaining_size`.
unfoldable pub first_part : Client → Outcome (ℕ × Upload)
unfolding filename_of
first_part c = do
  pos ← strstr_buffer buffer_size c.remainder (crlf ++ crlf)
  maybe pos fault λ p. filename_of (until_zero c.remainder) >>= λ name. done (
    c.remaining_size - (p + 4),
    write_to (record { filename = name; writes = []; current_length = c.remaining_size })
        (take (c.remaining_size - (p + 4)) (drop (p + 4) c.remainder)),
  )

-- A part that starts behind a boundary at `start`, its head ending after `size` bytes.
unfoldable pub next_part : (memory : Text) → (start size read : ℕ) → Upload → Outcome Upload
unfolding filename_of
next_part memory start size read u =
    if leb buffer_size size || ltb read (start + size)
    then fault
    else (filename_of (until_zero (take size (drop start memory))) >>= λ name. done (
        write_to (record (write_to u (take start memory)) { filename = name })
          (take (read - (start + size)) (drop (start + size) memory))))

-- The last part ends behind the boundary: its length and eight bytes more are cut off.
abbrev pub last_part : (boundary bytes : Text) → Upload → Outcome Upload
last_part boundary bytes u =
    if ltb (length bytes) (2 + length boundary + 6)
    then fault
    else done (write_to u (take (length bytes - (2 + length boundary + 6)) bytes))

-- One round, for the bytes read and what older reads left behind them in the buffer, up to a zero.
unfoldable pub take_body : (boundary bytes beyond : Text) → Upload → Outcome Upload
unfolding next_part
take_body boundary bytes beyond u =
    maybe (find boundary (until_zero (bytes ++ beyond))) (done (write_to u bytes)) λ p.
      let start = p + length boundary + 2 in
      let memory = bytes ++ beyond in
      if ltb (length memory) start
      then fault
      else maybe (find (crlf ++ crlf) (until_zero (drop start memory))) (last_part boundary bytes u)
          λ q. next_part memory start (q + 4) (length bytes) u

-- The loop over the reads.
unfoldable pub receive_body :
    (boundary : Text) → (content_length : ℕ) → List (Reading × Text) → Upload → Outcome Upload
unfolding take_body
receive_body boundary n [] u = if leb n u.current_length then done u else runs_on
receive_body boundary n ((failed, beyond) ∷ reads) u = done u
receive_body boundary n ((ended, beyond) ∷ reads) u = done u
receive_body boundary n ((chunk bytes, beyond) ∷ reads) u =
    let rest = take_body boundary bytes beyond u >>= λ u'.
    receive_body boundary n reads
      (record u' { current_length = u'.current_length + length bytes }) in
    if leb n u.current_length then done u else rest

-- The client afterwards, and what was written to files.
unfoldable pub handle_post :
    List (Reading × Text) → Client → Request → Outcome (Client × List (Text × Text))
unfolding first_part receive_body send
handle_post reads c r = do
  (remaining, u) ← first_part c
  u' ← receive_body r.boundary (content_length r) reads u
  done (
    send (create_created_response new_response) (record c { remaining_size = remaining }),
    u'.writes,
  )
