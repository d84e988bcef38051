-- ===== src/Scheduler/Main/Started.antt =====
-- The threads that `main` starts.
use ivos.Base.{◌≡◌, refl, ◌∙◌, ap, List, [], ◌∷◌, Text}
use ivos.Scheduler.Thread.{Algorithm, Kernel}
use ivos.Scheduler.Policy.{set_scheduling_algorithm}
use ivos.Scheduler.Main.{after_choice, chooses, choice_of, goes_on, read_options, begin}

-- All arguments choose an algorithm, and the last one `a`.
abbrev pub Chosen : List Text → Algorithm → Type 0
Chosen [] a = ⊥
Chosen (arg ∷ []) a = choice_of arg ≡ chooses a
Chosen (arg ∷ next ∷ args) a =
    ((b : Algorithm) × (choice_of arg ≡ chooses b)) × Chosen (next ∷ args) a

read_options-chooses :
    (arg : Text) (args : List Text) (b : Algorithm) (k : Kernel)
    → choice_of arg ≡ chooses b
    → read_options (arg ∷ args) k ≡ read_options args (set_scheduling_algorithm b k)
unfolding read_options
read_options-chooses arg args b k h =
    ap (λ c. after_choice c arg (λ x. read_options args (set_scheduling_algorithm x k))) h

done_reading :
    (a : Algorithm) (k : Kernel)
    → read_options [] (set_scheduling_algorithm a k) ≡ goes_on (set_scheduling_algorithm a k)
unfolding read_options
done_reading a k = refl

read_options-Chosen :
    (args : List Text) (a : Algorithm) (k : Kernel)
    → Chosen args a
    → read_options args k ≡ goes_on (set_scheduling_algorithm a k)
unfolding set_scheduling_algorithm
read_options-Chosen [] a k h = absurd h
read_options-Chosen (arg ∷ []) a k h = read_options-chooses arg [] a k h ∙ done_reading a k
read_options-Chosen (arg ∷ next ∷ args) a k ((b, h), hs) =
    read_options-chooses arg (next ∷ args) b k h
    ∙ read_options-Chosen (next ∷ args) a (set_scheduling_algorithm b k) hs

-- When all arguments choose an algorithm, and there is one, the program goes on with the last one's.
pub begin-Chosen :
    (args : List Text) (a : Algorithm) (k : Kernel)
    → Chosen args a
    → begin args k ≡ goes_on (set_scheduling_algorithm a k)
unfolding begin
begin-Chosen [] a k h = absurd h
begin-Chosen (arg ∷ args) a k h = read_options-Chosen (arg ∷ args) a k h
