-- ===== src/Http/System.antt =====
-- What the system holds for the server of http_server/core/Server.cpp, and calls that can end the
-- program.
use ivos.Base.{◌≡◌, ap, ℕ, ◌+◌, ◌-◌, ◌==◌, Bool, true, false, Option, none, some, if◌then◌else◌}

-- How many there are of each number.
abbrev pub Held : Type 0
Held = ℕ → ℕ

abbrev pub one : ℕ → ℕ → ℕ
one x y = if y == x then 1 else 0

abbrev pub add : ℕ → Held → Held
add x held y = one x y + held y

abbrev pub remove : ℕ → Held → Held
remove x held y = held y - one x y

-- /logger and /available.
pub data QueueName : Type 0 where
  logger available : QueueName

abbrev pub set_linked : QueueName → Bool → (QueueName → Bool) → QueueName → Bool
set_linked logger b linked logger = b
set_linked logger b linked available = linked available
set_linked available b linked logger = linked logger
set_linked available b linked available = b

-- What the system holds for the server: its child processes that it has
-- not waited for, its open descriptors of sockets
-- and queues, the queues' names, and whether there is a TLS context.
pub record System : Type 0 where
  pub running : Held
  pub descriptors : Held
  pub linked : QueueName → Bool
  pub tls : Bool

-- How far the program comes: it goes on, exits with a code, is ended by a signal, has a fault, or waits
-- for ever.
pub data Result {ℓ} (A : Type ℓ) : Type ℓ where
  goes_on : A → System → Result A
  exits : (code : ℕ) → System → Result A
  killed : System → Result A
  crashes waits : Result A

abbrev pub Action {ℓ} : Type ℓ → Type ℓ
Action A = System → Result A

abbrev pub then_on {ℓ κ} : {A : Type ℓ} {B : Type κ} → Result A → (A → Action B) → Result B
then_on (goes_on a w) f = f a w
then_on (exits code w) f = exits code w
then_on (killed w) f = killed w
then_on crashes f = crashes
then_on waits f = waits

infixl 5 ◌>>=◌ ◌>>◌
abbrev pub ◌>>=◌ {ℓ κ} : {A : Type ℓ} {B : Type κ} → Action A → (A → Action B) → Action B
◌>>=◌ m f w = then_on (m w) f

abbrev pub ◌>>◌ {ℓ κ} : {A : Type ℓ} {B : Type κ} → Action A → Action B → Action B
m >> n = m >>= λ _. n

abbrev pub pure {ℓ} : {A : Type ℓ} → A → Action A
pure a w = goes_on a w

abbrev pub modify : (System → System) → Action (Unit {0})
modify change w = goes_on tt (change w)

-- if (call fails) { perror(…); exit(EXIT_FAILURE); }
abbrev pub check : Bool → Action (Unit {0})
check true w = goes_on tt w
check false w = exits 1 w

-- The same for a call that returns a number.
abbrev pub check_number : Option ℕ → Action ℕ
check_number none w = exits 1 w
check_number (some n) w = goes_on n w

abbrev pub close_fd : (fd : ℕ) → Action (Unit {0})
close_fd fd = modify (λ w. record w { descriptors = remove fd w.descriptors })

abbrev pub opened : (fd : ℕ) → Action (Unit {0})
opened fd = modify (λ w. record w { descriptors = add fd w.descriptors })

-- mq_open(name, O_CREAT | O_RDWR, …), with the exit where it fails.
unfoldable pub open_queue : QueueName → Option ℕ → Action ℕ
open_queue name result = do
  fd ← check_number result
  opened fd
  modify (λ w. record w { linked = set_linked name true w.linked })
  pure fd

-- Nothing is held yet.
abbrev pub nothing : System
nothing = record { running = λ _. 0; descriptors = λ _. 0; linked = λ _. false; tls = false }

-- What follows a step that goes on.
pub bind-goes_on {ℓ κ} :
    {A : Type ℓ} {B : Type κ} (m : Action A) (f : A → Action B) (w : System) (a : A) (w' : System)
    → m w ≡ goes_on a w'
    → (m >>= f) w ≡ f a w'
bind-goes_on m f w a w' e = ap (λ r. then_on r f) e

pub bind-killed {ℓ κ} :
    {A : Type ℓ} {B : Type κ} (m : Action A) (f : A → Action B) (w w' : System)
    → m w ≡ killed w'
    → (m >>= f) w ≡ killed w'
bind-killed m f w w' e = ap (λ r. then_on r f) e

pub bind-exits {ℓ κ} :
    {A : Type ℓ} {B : Type κ} (m : Action A) (f : A → Action B) (w : System) (code : ℕ)
    (w' : System)
    → m w ≡ exits code w'
    → (m >>= f) w ≡ exits code w'
bind-exits m f w code w' e = ap (λ r. then_on r f) e
