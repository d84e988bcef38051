-- ===== src/Http/Worker/Closing.antt =====
-- A connection is closed once.
use ivos.Base.{
  Option-cases, inl, inr, ℕ, ◌+◌, ◌-◌, take, length, ◌≤◌, ◌≡◌, Bool, true, false, List, [], ◌∷◌,
  ◌++◌, done, runs_on, ◌>>=◌, Ensures, Ensures-bind, Ensures-any, Ensures-if, Ensures-maybe, arith,
  if◌then◌else◌, ◌&&◌,
}
use ivos.Http.Text.{Text, codes, drop}
use ivos.Http.Request.{
  Request, new_request, parse, crlf, get_type_as_string, has_path, is_script, keep_alive,
}
use ivos.Http.Response.{
  Files, Response, new_response, create_file_response, create_created_response,
  create_string_response,
}
use ivos.Http.Client.{
  Client, Reading, failed, ended, chunk, buffer_size, close, new_client, send, strstr_buffer,
  until_zero, take_headers, receive_headers, Pipe, script_command, read_output, execute_script,
}
use ivos.Http.Upload.{first_part, receive_body, content_length, handle_post}
use ivos.Http.Worker.{
  Round, is_post, get_type, answer, close_unless, handle_request, serve, handle_connection,
}

-- While a connection is open nothing has been released; afterwards all has been, once.
pub record IsOnce (c : Client) : Type 0 where
  pub freed : c.frees ≡ (if c.is_open then 0 else 1)
  pub closed : c.closes ≡ (if c.is_open then 0 else 1)
  pub shut : c.shutdowns ≤ (if c.is_open then 0 else 1)

close-IsOnce : (c : Client) → IsOnce c → IsOnce (close c)
unfolding close
close-IsOnce c h = ground arith

send-IsOnce : (r : Response) (c : Client) → IsOnce c → IsOnce (send r c)
unfolding send
send-IsOnce r c h = ground arith

new_client-IsOnce : (accepted : Bool) → IsOnce (new_client accepted)
unfolding new_client
new_client-IsOnce accepted = ground arith

execute_script-IsOnce :
    (pipe : Pipe) (r : Request) (c : Client) → IsOnce c → IsOnce (execute_script pipe r c)
unfolding execute_script
execute_script-IsOnce pipe r c h = elim (Option-cases (pipe (script_command r))) [
  | inl none_made ↦ rw none_made h
  | inr (reads, made) ↦
      rw made (send-IsOnce (create_string_response (read_output reads) new_response) c h)
]

-- The connection does not depend on what is left of the buffer.
remainder-IsOnce :
    (c : Client) (bytes : Text) (n : ℕ)
    → IsOnce c
    → IsOnce (record c { remainder = bytes; remaining_size = n })
remainder-IsOnce c bytes n h = record { freed = h.freed; closed = h.closed; shut = h.shut }

take_headers-IsOnce :
    (bytes beyond : Text) (c : Client) (r : Request)
    → IsOnce c
    → Ensures (λ x. IsOnce x.0) (take_headers bytes beyond c r)
unfolding take_headers
take_headers-IsOnce bytes beyond c r h =
    Ensures-bind (λ _. Unit {0}) (λ x. IsOnce x.0) (strstr_buffer buffer_size bytes (crlf ++ crlf))
      _ (Ensures-any (strstr_buffer buffer_size bytes (crlf ++ crlf)))
      λ pos _.
        Ensures-maybe (λ x. IsOnce x.0) pos _ _ (remainder-IsOnce c [] c.remaining_size h)
          λ p.
            Ensures-bind (λ _. Unit {0}) (λ x. IsOnce x.0)
              (parse (until_zero (take (p + 4) bytes ++ beyond)) r) _
              (Ensures-any (parse (until_zero (take (p + 4) bytes ++ beyond)) r))
              λ r' _. remainder-IsOnce c (drop (p + 4) bytes) (length bytes - (p + 4)) h

receive_headers-IsOnce :
    (reading : Reading) (beyond : Text) (c : Client) (r : Request)
    → IsOnce c
    → Ensures (λ x. IsOnce x.0) (receive_headers reading beyond c r)
unfolding receive_headers
receive_headers-IsOnce failed beyond c r h = close-IsOnce c h
receive_headers-IsOnce ended beyond c r h =
    close-IsOnce (record c { peer_disconnected = true }) (ground arith)
receive_headers-IsOnce (chunk bytes) beyond c r h = take_headers-IsOnce bytes beyond c r h

handle_post-IsOnce :
    (reads : List (Reading × Text)) (c : Client) (r : Request)
    → IsOnce c
    → Ensures (λ x. IsOnce x.0) (handle_post reads c r)
unfolding handle_post
handle_post-IsOnce reads c r h =
    Ensures-bind (λ _. Unit {0}) (λ x. IsOnce x.0) (first_part c) _ (Ensures-any (first_part c))
      λ p _.
        Ensures-bind (λ _. Unit {0}) (λ x. IsOnce x.0)
          (receive_body r.boundary (content_length r) reads p.1) _
          (Ensures-any (receive_body r.boundary (content_length r) reads p.1))
          λ u' _.
            send-IsOnce (create_created_response new_response) (record c { remaining_size = p.0 })
              (remainder-IsOnce c c.remainder p.0 h)

send_file-IsOnce :
    (files : Files) (path : Text) (c : Client)
    → IsOnce c
    → Ensures IsOnce
        (create_file_response files path new_response >>= λ response. done (send response c))
send_file-IsOnce files path c h =
    Ensures-bind (λ _. Unit {0}) IsOnce (create_file_response files path new_response) _
      (Ensures-any (create_file_response files path new_response))
      λ response _. send-IsOnce response c h

answer-IsOnce :
    (files : Files) (round : Round) (r : Request) (c : Client)
    → IsOnce c
    → Ensures IsOnce (answer files round r c)
unfolding answer
answer-IsOnce files round r c h =
    Ensures-bind (λ _. Unit {0}) IsOnce (get_type r) _ (Ensures-any (get_type r))
      λ t _.
        Ensures-if IsOnce (is_post t) _ _
          (λ _.
            Ensures-bind (λ x. IsOnce x.0) IsOnce (handle_post round.uploads c r) _
              (handle_post-IsOnce round.uploads c r h) λ x h'. h')
          λ _.
            Ensures-if IsOnce (has_path r && is_script r) _ _
              (λ _. execute_script-IsOnce round.pipe r c h)
              λ _.
                Ensures-if IsOnce (has_path r) _ _ (λ _. send_file-IsOnce files r.path c h)
                  λ _. send_file-IsOnce files (codes "/index.html") c h

close_unless-IsOnce : (b : Bool) (c : Client) → IsOnce c → IsOnce (close_unless b c)
close_unless-IsOnce true c h = h
close_unless-IsOnce false c h = close-IsOnce c h

handle_request-IsOnce :
    (files : Files) (round : Round) (c : Client) (r : Request) (received : Bool)
    → IsOnce c
    → Ensures IsOnce (handle_request files round (c, r, received))
unfolding handle_request
handle_request-IsOnce files round c r false h = close-IsOnce c h
handle_request-IsOnce files round c r true h =
    Ensures-bind (λ _. Unit {0}) IsOnce (get_type_as_string r) _
      (Ensures-any (get_type_as_string r))
      λ _ _.
        Ensures-bind IsOnce IsOnce (answer files round r c) _ (answer-IsOnce files round r c h)
          λ c' h'. close_unless-IsOnce (keep_alive r) c' h'

abbrev pub IsClosed : Client → Type 0
IsClosed c = IsOnce c × (c.is_open ≡ false)

serve-IsClosed :
    (files : Files) (rounds : List Round) (c : Client)
    → IsOnce c
    → Ensures IsClosed (serve files rounds c)
unfolding serve
serve-IsClosed files [] c h =
    Ensures-if IsClosed c.is_open runs_on (done c) (λ _. tt) λ shut. (h, shut)
serve-IsClosed files (round ∷ rounds) c h =
    Ensures-if IsClosed c.is_open _ (done c)
      (λ _.
        Ensures-bind (λ x. IsOnce x.0) IsClosed
          (receive_headers round.reading round.beyond c new_request) _
          (receive_headers-IsOnce round.reading round.beyond c new_request h)
          λ x h'.
            Ensures-bind IsOnce IsClosed (handle_request files round x) _
              (handle_request-IsOnce files round x.0 x.1 x.2 h')
              λ c' h''. serve-IsClosed files rounds c' h'')
      λ shut. (h, shut)

-- Whatever a client sends, however the reads go and whether TLS accepts: when the process is done with
-- a connection, the connection is closed, its TLS state was freed once, its socket closed once, and
-- TLS shut down at most once.
pub handle_connection-IsClosed :
    (files : Files) (accepted : Bool) (rounds : List Round)
    → Ensures IsClosed (handle_connection files accepted rounds)
unfolding handle_connection
handle_connection-IsClosed files accepted rounds =
    serve-IsClosed files rounds (new_client accepted) (new_client-IsOnce accepted)
