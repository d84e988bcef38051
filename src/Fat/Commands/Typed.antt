-- ===== src/Fat/Commands/Typed.antt =====
-- Commands typed in as `help` shows them.
use ivos.Base.{
  ℕ, ◌==◌, ◌≡◌, false, refl, ap, ◌∙◌, List, [], ◌∷◌, ◌++◌, Outcome, done, ◌>>=◌, Text, codes, map,
}
use ivos.Fat.Disk.{Disk}
use ivos.Fat.Volume.{Volume}
use ivos.Fat.Directory.{Shell}
use ivos.Fat.Commands.{
  Command, exits, info, ls, no_filename, no_directory, tree, help, other, reads, enters, command_of,
  skip_dots, until_dot, behind_dot, named, name_and_ext, Shown, perform, is_exit, run,
}

-- A command with an argument has one; `exit` and what is no command are left out.
abbrev pub IsTyped : Command → Type 0
IsTyped exits = ⊥
IsTyped other = ⊥
IsTyped (reads []) = ⊥
IsTyped (enters []) = ⊥
IsTyped c = Unit {0}

abbrev pub typed : Command → Text
typed exits = codes "exit"
typed info = codes "info"
typed ls = codes "ls"
typed no_filename = codes "read "
typed no_directory = codes "cd "
typed tree = codes "tree"
typed help = codes "help"
typed other = []
typed (reads name) = codes "read " ++ name
typed (enters name) = codes "cd " ++ name

command_of-typed : (c : Command) → IsTyped c → command_of (typed c) ≡ done c
unfolding command_of
command_of-typed info h = refl
command_of-typed ls h = refl
command_of-typed no_filename h = refl
command_of-typed no_directory h = refl
command_of-typed tree h = refl
command_of-typed help h = refl
command_of-typed (reads (c ∷ name)) h = refl
command_of-typed (enters (c ∷ name)) h = refl
command_of-typed exits h = absurd h
command_of-typed other h = absurd h
command_of-typed (reads []) h = absurd h
command_of-typed (enters []) h = absurd h

IsTyped-is_exit : (c : Command) → IsTyped c → is_exit c ≡ false
IsTyped-is_exit exits h = absurd h
IsTyped-is_exit info h = refl
IsTyped-is_exit ls h = refl
IsTyped-is_exit no_filename h = refl
IsTyped-is_exit no_directory h = refl
IsTyped-is_exit tree h = refl
IsTyped-is_exit help h = refl
IsTyped-is_exit other h = refl
IsTyped-is_exit (reads name) h = refl
IsTyped-is_exit (enters name) h = refl

abbrev pub AllTyped : List Command → Type 0
AllTyped [] = Unit {0}
AllTyped (c ∷ cs) = IsTyped c × AllTyped cs

-- The commands one after the other.
abbrev pub perform_all :
    Disk → Volume → (rounds : ℕ) → List Command → Shell → Outcome (List Shown × Shell)
perform_all d v rounds [] s = done ([], s)
perform_all d v rounds (c ∷ cs) s = perform d v rounds c s >>= λ (shown, s').
    perform_all d v rounds cs s' >>= λ (rest, last). done (shown ∷ rest, last)

-- On lines that spell commands, then `exit`, the loop does just what the commands do one after the other,
-- shows what they show, and ends without a look at the lines behind `exit`.
pub run-perform_all :
    (d : Disk) (v : Volume) (rounds : ℕ) (cs : List Command) (rest : List Text) (s : Shell)
    → AllTyped cs
    → run d v rounds (map typed cs ++ (codes "exit" ∷ rest)) s ≡ perform_all d v rounds cs s
unfolding run
run-perform_all d v rounds [] rest s all = refl
run-perform_all d v rounds (c ∷ cs) rest s (h, all) =
    rw (command_of-typed c h, IsTyped-is_exit c h)
      (ap (λ f. perform d v rounds c s >>= f)
        λ i x. run-perform_all d v rounds cs rest x.1 all i >>= λ y. done (x.0 ∷ y.0, y.1))

-- The bytes before a dot.
abbrev pub NoDot : Text → Type 0
NoDot [] = Unit {0}
NoDot (c ∷ s) = ((c == 0x2E) ≡ false) × NoDot s

until_dot-NoDot : (s : Text) → NoDot s → until_dot s ≡ s
until_dot-NoDot [] h = refl
until_dot-NoDot (c ∷ s) (h, hs) = rw (h, until_dot-NoDot s hs) refl

until_dot-append : (s t : Text) → NoDot s → until_dot (s ++ (0x2E ∷ t)) ≡ s
until_dot-append [] t h = refl
until_dot-append (c ∷ s) t (h, hs) = rw (h, until_dot-append s t hs) refl

behind_dot-append : (s t : Text) → NoDot s → behind_dot (s ++ (0x2E ∷ t)) ≡ t
behind_dot-append [] t h = refl
behind_dot-append (c ∷ s) t (h, hs) = rw (h, behind_dot-append s t hs) refl

skip_dots-NoDot : (s : Text) → NoDot s → skip_dots s ≡ s
skip_dots-NoDot [] h = refl
skip_dots-NoDot (c ∷ s) (h, hs) = rw h refl

skip_dots-first : (c : ℕ) (s : Text) → (c == 0x2E) ≡ false → skip_dots (c ∷ s) ≡ c ∷ s
skip_dots-first c s h = rw h refl

-- The name of a file, a dot, and an extension, which may be empty, neither with a dot in it, are taken
-- apart again.
pub name_and_ext_lem :
    (c : ℕ) (name ext : Text)
    → NoDot (c ∷ name)
    → NoDot ext
    → name_and_ext ((c ∷ name) ++ (0x2E ∷ ext)) ≡ done (c ∷ name, ext)
unfolding name_and_ext
name_and_ext_lem c name ext (h, hs) no_dot =
    ap named (skip_dots-first c (name ++ (0x2E ∷ ext)) h)
    ∙ rw
        (
          h,
          until_dot-append name ext hs,
          behind_dot-append name ext hs,
          skip_dots-NoDot ext no_dot,
          until_dot-NoDot ext no_dot,
        )
        refl
