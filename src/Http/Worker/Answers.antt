-- ===== src/Http/Worker/Answers.antt =====
-- A connection on which whole GET requests come in.
use ivos.Base.{
  ℕ, ◌-◌, take, length, ◌≡◌, Bool, true, false, refl, ap, sym, ◌∙◌, List, [], ◌∷◌, ◌++◌,
  append_assoc, append-nil, none, some, Outcome, done, map, arith,
}
use ivos.Http.Text.{Text, codes, drop}
use ivos.Http.Text.Find.{Lacks}
use ivos.Http.Request.{
  Request, Fields, get, field_get, new_request, parse, has_path, is_script, keep_alive,
}
use ivos.Http.Request.Lines.{IsClean, AllFields, set_all, print_request, IsIdle}
use ivos.Http.Request.Printing.{parse-print_behind}
use ivos.Http.Request.Blank.{EndsBlank, print_request-EndsBlank, print_request-no_zero}
use ivos.Http.Response.{Files}
use ivos.Http.Response.Framing.{Framed, Served, create_file_response-Framed}
use ivos.Http.Client.{
  Client, ended, chunk, until_zero, take_headers, receive_headers, send, close, new_client,
  fresh_client,
}
use ivos.Http.Worker.{Round, answer, handle_request, serve, handle_connection}

-- A GET request, what lies in memory behind the copy of its head, and what is to be sent for it.
pub record Visit : Type 0 where
  pub behind : Text
  pub path : Text
  pub version : Text
  pub fields : Fields
  pub status : Text
  pub content : Text

abbrev pub request_of : Visit → Request
request_of v = record new_request {
  type = some get;
  path = v.path;
  version = v.version;
  fields = set_all v.fields [];
}

abbrev pub text_of : Visit → Text
text_of v = print_request get v.path v.version v.fields

-- The request can be printed, names a file that is no script, and wants the connection kept. The copy
-- of its head has no zero at its end: what is read on behind it, up to a zero, is one line and no field.
pub record IsVisit (files : Files) (v : Visit) : Type 0 where
  pub idle : IsIdle (until_zero v.behind)
  pub clean_path : IsClean v.path
  pub no_space : Lacks 0x20 v.path
  pub clean_version : IsClean v.version
  pub version_no_space : Lacks 0x20 v.version
  pub plain : AllFields v.fields
  pub no_type : field_get (codes "Content-Type") (set_all v.fields []) ≡ none
  pub names_file : has_path (request_of v) ≡ true
  pub no_script : is_script (request_of v) ≡ false
  pub stays : keep_alive (request_of v) ≡ true
  pub served : Served files v.path v.status v.content

abbrev pub AllVisits : Files → List Visit → Type 0
AllVisits files [] = Unit {0}
AllVisits files (v ∷ vs) = IsVisit files v × AllVisits files vs

-- The request in one read.
abbrev pub round_of : Visit → Round
round_of v = record {
  reading = chunk (text_of v);
  beyond = v.behind;
  pipe = λ _. none;
  uploads = [];
}

abbrev pub last_round : Round
last_round = record { reading = ended; beyond = []; pipe = λ _. none; uploads = [] }

-- One text for each request, in their order.
abbrev pub AllFramed : List Visit → List Text → Type 0
AllFramed [] [] = Unit {0}
AllFramed [] (t ∷ ts) = ⊥
AllFramed (v ∷ vs) [] = ⊥
AllFramed (v ∷ vs) (t ∷ ts) = Framed v.status v.content t × AllFramed vs ts

until_zero-append : (s t : Text) → Lacks 0 s → until_zero (s ++ t) ≡ s ++ until_zero t
until_zero-append [] t h = refl
until_zero-append (x ∷ s) t (h, hs) = ground (arith, until_zero-append s t hs)

until_zero-Lacks : (s : Text) → Lacks 0 s → until_zero s ≡ s
until_zero-Lacks [] h = refl
until_zero-Lacks (x ∷ s) (h, hs) = ground (arith, until_zero-Lacks s hs)

take_all : (s : Text) → take (length s) s ≡ s
take_all [] = refl
take_all (x ∷ s) = ap (λ l. x ∷ l) (take_all s)

drop_all : (s : Text) → drop (length s) s ≡ []
drop_all [] = refl
drop_all (x ∷ s) = drop_all s

-- The client when a request has been taken from it.
abbrev emptied : Client → ℕ → Client
emptied c n = record c { remainder = []; remaining_size = n }

take_headers-EndsBlank :
    (bytes beyond : Text) (c : Client) (r r' : Request)
    → EndsBlank bytes
    → Lacks 0 bytes
    → parse (bytes ++ until_zero beyond) r ≡ done r'
    → take_headers bytes beyond c r ≡ done (emptied c (length bytes - length bytes), r', true)
unfolding take_headers
take_headers-EndsBlank bytes beyond c r r' e lacks parsed =
    rw
      (
        until_zero-Lacks bytes lacks,
        e.found,
        e.last,
        take_all bytes,
        until_zero-append bytes beyond lacks,
        parsed,
        drop_all bytes,
      )
      refl

receive_headers-text_of :
    (files : Files) (v : Visit) (c : Client)
    → IsVisit files v
    → receive_headers (chunk (text_of v)) v.behind c new_request
      ≡ done (emptied c (length (text_of v) - length (text_of v)), request_of v, true)
unfolding receive_headers
receive_headers-text_of files v c h =
    take_headers-EndsBlank (text_of v) v.behind c new_request (request_of v)
      (print_request-EndsBlank get v.path v.version v.fields h.clean_path h.clean_version h.plain)
      (print_request-no_zero get v.path v.version v.fields h.clean_path h.clean_version h.plain)
      (parse-print_behind (until_zero v.behind) get v.path v.version v.fields h.idle h.clean_path
        h.no_space h.clean_version h.version_no_space h.plain h.no_type)

-- One round: the answer is written and the connection stays open.
record Step (files : Files) (v : Visit) (c : Client) : Type 0 where
  next : Client
  text : Text
  framed : Framed v.status v.content text
  wrote : next.written ≡ c.written ++ (text ∷ [])
  opened : next.is_open ≡ true
  answered : (rounds : List Round) → serve files (round_of v ∷ rounds) c ≡ serve files rounds next

serve-round :
    (files : Files) (round : Round) (rounds : List Round) (c c' : Client)
    (x : Client × Request × Bool)
    → c.is_open ≡ true
    → receive_headers round.reading round.beyond c new_request ≡ done x
    → handle_request files round x ≡ done c'
    → serve files (round ∷ rounds) c ≡ serve files rounds c'
unfolding serve
serve-round files round rounds c c' x opened received handled = rw (received, handled, opened) refl

answer-Step :
    (files : Files) (v : Visit) (c : Client) → IsVisit files v → c.is_open ≡ true → Step files v c
unfolding handle_request answer send
answer-Step files v c h opened =
    let (r, made, framed) = create_file_response-Framed files v.path v.status v.content h.served in
    record {
      next = record c {
        remainder = [];
        remaining_size = length (text_of v) - length (text_of v);
        written = c.written ++ (r.response ∷ []);
      };
      text = r.response;
      framed = framed;
      wrote = refl;
      opened = opened;
      answered = λ rounds.
          serve-round files (round_of v) rounds c _ _ opened (receive_headers-text_of files v c h)
            (rw (h.names_file, h.no_script, made, opened, h.stays) refl);
    }

abbrev pub rounds_of : List Visit → List Round
rounds_of vs = map round_of vs ++ (last_round ∷ [])

-- What is left when all requests have been answered.
pub record Session (files : Files) (vs : List Visit) (before : List Text) (run : Outcome Client)
    : Type 0 where
  pub client : Client
  pub texts : List Text
  pub ends : run ≡ done client
  pub wrote : client.written ≡ before ++ texts
  pub framed : AllFramed vs texts
  pub shut : client.is_open ≡ false

last_Session :
    (files : Files) (c : Client)
    → c.is_open ≡ true
    → Session files [] c.written (serve files (last_round ∷ []) c)
unfolding serve receive_headers handle_request close
last_Session files c opened = record {
  client = close (record c { peer_disconnected = true });
  texts = [];
  ends = rw opened refl;
  wrote = rw opened (sym (append-nil c.written));
  framed = tt;
  shut = rw opened refl;
}

serve-Session :
    (files : Files) (vs : List Visit) (c : Client)
    → AllVisits files vs
    → c.is_open ≡ true
    → Session files vs c.written (serve files (rounds_of vs) c)
serve-Session files [] c all opened = last_Session files c opened
serve-Session files (v ∷ vs) c (h, all) opened =
    let one = answer-Step files v c h opened in
    let rest = serve-Session files vs one.next all one.opened in
    record {
      client = rest.client;
      texts = one.text ∷ rest.texts;
      ends = one.answered (rounds_of vs) ∙ rest.ends;
      wrote = rest.wrote ∙ rw one.wrote (append_assoc c.written (one.text ∷ []) rest.texts);
      framed = (one.framed, rest.framed);
      shut = rest.shut;
    }

-- On a connection that TLS accepts, on which GET requests for files come in one read each, all with
-- `Connection: keep-alive` and as in `IsVisit`, and which the peer then ends: if what lies behind the
-- copy of each head, up to a zero, has no newline and no colon before a space, the process comes to an
-- end, has closed the connection, and has written one answer for each request, in order, from which
-- the peer gets the status, length and content of the file, or of not_found.html with status 404.
pub handle_connection-Session :
    (files : Files) (vs : List Visit)
    → AllVisits files vs
    → Session files vs [] (handle_connection files true (rounds_of vs))
unfolding handle_connection new_client
handle_connection-Session files vs all = serve-Session files vs fresh_client all refl
