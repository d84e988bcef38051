-- ===== src/Http/Logging/Messages.antt =====
-- What becomes of a message on its way to the loggers.
use ivos.Base.{
  ℕ, zero, suc, ◌==◌, ◌≡◌, refl, ap, ◌∙◌, sym, List, [], ◌∷◌, ◌++◌, append_assoc, append-nil,
  Option, none, some, length, take, Bool-cases, inl, inr,
}
use ivos.Http.Text.{Text}
use ivos.Http.Client.{until_zero}
use ivos.Http.Logging.{
  LogLevel, debug, LogMessage, message_size, strncpy, create_log_message, log_line, log_to, log,
  receive_messages, start_logger_process,
}

length-strncpy : (n : ℕ) (s : Text) → length (strncpy n s ++ (0 ∷ [])) ≡ suc n
length-strncpy zero s = refl
length-strncpy (suc n) [] = ap suc (length-strncpy n [])
length-strncpy (suc n) (c ∷ s) = elim (Bool-cases (c == 0)) [
  | inl zero_byte ↦ rw zero_byte (ap suc (length-strncpy n []))
  | inr other ↦ rw other (ap suc (length-strncpy n s))
]

until_zero-strncpy :
    (n : ℕ) (s : Text) → until_zero (strncpy n s ++ (0 ∷ [])) ≡ take n (until_zero s)
until_zero-strncpy zero s = refl
until_zero-strncpy (suc n) [] = refl
until_zero-strncpy (suc n) (c ∷ s) = elim (Bool-cases (c == 0)) [
  | inl zero_byte ↦ rw zero_byte refl
  | inr other ↦ rw other (rw other (ap (λ l. c ∷ l) (until_zero-strncpy n s)))
]

-- A message always fills its array of 256 bytes and no more, and what a reader takes from it, up to the
-- first zero, is the text it was made from up to its first zero, cut after 255 bytes.
create_log_message-until_zero :
    (level : LogLevel) (time msg : Text)
    → (length (create_log_message level time msg).message ≡ message_size)
      × (until_zero (create_log_message level time msg).message ≡ take 255 (until_zero msg))
unfolding create_log_message
create_log_message-until_zero level time msg = (length-strncpy 255 msg, until_zero-strncpy 255 msg)

-- The lines of the messages that were received, in order.
abbrev pub lines_of : List (Option LogMessage) → Text
lines_of [] = []
lines_of (none ∷ queue) = lines_of queue
lines_of (some m ∷ queue) = log_line m.level m.time (until_zero m.message) ++ lines_of queue

-- The same text behind every file.
abbrev pub append_all : (text : Text) → List Text → List Text
append_all text [] = []
append_all text (out_stream ∷ loggers) = (out_stream ++ text) ∷ append_all text loggers

append_all-nil : (loggers : List Text) → append_all [] loggers ≡ loggers
append_all-nil [] = refl
append_all-nil (s ∷ loggers) = rw (append-nil s, append_all-nil loggers) refl

append_all-append :
    (a b : Text) (loggers : List Text)
    → append_all b (append_all a loggers) ≡ append_all (a ++ b) loggers
append_all-append a b [] = refl
append_all-append a b (s ∷ loggers) = rw (append_assoc s a b, append_all-append a b loggers) refl

log-append_all :
    (level : LogLevel) (time message : Text) (loggers : List Text)
    → log level time message loggers ≡ append_all (log_line level time message) loggers
unfolding log log_to
log-append_all level time message [] = refl
log-append_all level time message (s ∷ loggers) =
    ap (λ l. (s ++ log_line level time message) ∷ l) (log-append_all level time message loggers)

receive_messages-append_all :
    (queue : List (Option LogMessage)) (loggers : List Text)
    → receive_messages queue loggers ≡ append_all (lines_of queue) loggers
unfolding receive_messages
receive_messages-append_all [] loggers = sym (append_all-nil loggers)
receive_messages-append_all (none ∷ queue) loggers = receive_messages-append_all queue loggers
receive_messages-append_all (some m ∷ queue) loggers =
    ap (receive_messages queue) (log-append_all m.level m.time (until_zero m.message) loggers)
    ∙ receive_messages-append_all queue
        (append_all (log_line m.level m.time (until_zero m.message)) loggers)
    ∙ append_all-append (log_line m.level m.time (until_zero m.message)) (lines_of queue) loggers

-- When the logger process has ended, each of its files has had appended: the line of its start, one line
-- for each message that it could receive, in order, and the line of its end.
start_logger_process-append_all :
    (start started ended end : Text) (queue : List (Option LogMessage)) (loggers : List Text)
    → start_logger_process start started ended end queue loggers
      ≡ append_all
          (log_line debug start started ++ (lines_of queue ++ log_line debug ended end))
          loggers
unfolding start_logger_process
start_logger_process-append_all start started ended end queue loggers =
    let first = log_line debug start started in
    let last = log_line debug ended end in
    log-append_all debug ended end (receive_messages queue (log debug start started loggers))
    ∙ ap (λ l. append_all last (receive_messages queue l))
        (log-append_all debug start started loggers)
    ∙ ap (append_all last) (receive_messages-append_all queue (append_all first loggers))
    ∙ append_all-append (lines_of queue) last (append_all first loggers)
    ∙ append_all-append first (lines_of queue ++ last) loggers
