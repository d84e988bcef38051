-- ===== src/Http/Worker/Scripts.antt =====
-- What a client gets for a script.
use ivos.Base.{
  ℕ, suc, ◌+◌, ◌≤◌, ◌||◌, same, ◌≡◌, ◌≢◌, true, false, refl, ap, List, [], ◌∷◌, ◌++◌, some, none,
  ◌⊎◌, inl, inr, done, length, arith,
}
use ivos.Http.Text.{Text, codes, drop}
use ivos.Http.Text.Join.{length-append}
use ivos.Http.Request.{RequestType, Request, find_last, get_path_extension, has_path, is_script}
use ivos.Http.Response.{Files, new_response, ok_status, create_string_response}
use ivos.Http.Response.Framing.{Framed, create_string_response-Framed}
use ivos.Http.Client.{Client, runner, send, read_output, script_command, execute_script}
use ivos.Http.Worker.{Round, is_post, answer}

-- Which program runs the scripts with which extension.
abbrev pub IsRunBy : (extension program : Text) → Type 0
IsRunBy extension program =
    ((extension ≡ codes "py") × (program ≡ codes "python3"))
    ⊎ (((extension ≡ codes "sh") × (program ≡ codes "bash"))
        ⊎ ((extension ≡ codes "php") × (program ≡ codes "php")))

-- The request is for the script `stem`.`extension`, and is no upload.
pub record AsksFor (r : Request) (stem extension program : Text) : Type 0 where
  pub type : RequestType
  pub has_type : r.type ≡ some type
  pub no_post : is_post type ≡ false
  pub named : r.path ≡ stem ++ (b'.' ∷ extension)
  pub run_by : IsRunBy extension program

-- Each read has something; the one behind them, which ends the loop, is not listed.
abbrev pub AllRead : List Text → Type 0
AllRead [] = Unit {0}
AllRead (t ∷ ts) = (t ≢ []) × AllRead ts

abbrev pub concatenated : List Text → Text
concatenated [] = []
concatenated (t ∷ ts) = t ++ concatenated ts

read_output-all : (reads : List Text) → AllRead reads → read_output reads ≡ concatenated reads
unfolding read_output
read_output-all [] all = refl
read_output-all ([] ∷ reads) (something, all) = absurd (something refl)
read_output-all ((b ∷ bs) ∷ reads) (something, all) =
    ap (λ t. (b ∷ bs) ++ t) (read_output-all reads all)

plus_one : (n : ℕ) → n + 1 ≡ suc n
plus_one n = omega arith

find_last-behind :
    (c : ℕ) (s t : Text) → find_last c t ≡ none → find_last c (s ++ (c ∷ t)) ≡ some (length s)
find_last-behind c [] t lacks = rw lacks (ground arith)
find_last-behind c (x ∷ s) t lacks =
    rw (find_last-behind c s t lacks) (ap some (plus_one (length s)))

drop-behind : (s : Text) (c : ℕ) (t : Text) → drop (suc (length s)) (s ++ (c ∷ t)) ≡ t
drop-behind [] c t = refl
drop-behind (x ∷ s) c t = drop-behind s c t

-- What the source does with such an extension.
record IsKnown (extension program : Text) : Type 0 where
  no_dot : find_last b'.' extension ≡ none
  is_one :
      (same extension (codes "py") || same extension (codes "sh") || same extension (codes "php"))
      ≡ true
  runs : runner extension ≡ program
  long : 2 ≤ length extension

IsRunBy-IsKnown : (extension program : Text) → IsRunBy extension program → IsKnown extension program
IsRunBy-IsKnown extension program (inl (e, e')) =
    rw (e, e') (record { no_dot = refl; is_one = refl; runs = refl; long = omega arith })
IsRunBy-IsKnown extension program (inr (inl (e, e'))) =
    rw (e, e') (record { no_dot = refl; is_one = refl; runs = refl; long = omega arith })
IsRunBy-IsKnown extension program (inr (inr (e, e'))) =
    rw (e, e') (record { no_dot = refl; is_one = refl; runs = refl; long = omega arith })

extension_of :
    (r : Request) (stem extension program : Text)
    → AsksFor r stem extension program
    → get_path_extension r ≡ extension
extension_of r stem extension program asks =
    rw
      (
        asks.named,
        find_last-behind b'.' stem extension (IsRunBy-IsKnown extension program asks.run_by).no_dot,
        plus_one (length stem),
      )
      (drop-behind stem b'.' extension)

is_script-asked :
    (r : Request) (stem extension program : Text)
    → AsksFor r stem extension program
    → is_script r ≡ true
is_script-asked r stem extension program asks =
    rw (extension_of r stem extension program asks)
      (IsRunBy-IsKnown extension program asks.run_by).is_one

command-asked :
    (r : Request) (stem extension program : Text)
    → AsksFor r stem extension program
    → script_command r ≡ (program, program ∷ (codes "www" ++ r.path) ∷ [])
command-asked r stem extension program asks =
    rw
      (
        extension_of r stem extension program asks,
        (IsRunBy-IsKnown extension program asks.run_by).runs,
      )
      refl

has_path-asked :
    (r : Request) (stem extension program : Text)
    → AsksFor r stem extension program
    → has_path r ≡ true
has_path-asked r stem extension program asks =
    let known = IsRunBy-IsKnown extension program asks.run_by in
    rw (asks.named, length-append stem (b'.' ∷ extension)) (ground (arith, known.long))

-- On an open connection, for a request that is no POST and names a script: when the program that goes
-- with the extension, python3, bash or php, is run on the file below www and writes to the pipe what
-- the reads have, the client gets one response, 200 OK with just that as its content.
pub answer-AsksFor :
    (files : Files) (round : Round) (r : Request) (c : Client) (stem extension program : Text)
    (reads : List Text)
    → AsksFor r stem extension program
    → c.is_open ≡ true
    → round.pipe (program, program ∷ (codes "www" ++ r.path) ∷ []) ≡ some reads
    → AllRead reads
    → (text : Text) × (answer files round r c
        ≡ done (record c { written = c.written ++ (text ∷ []) }))
      × Framed ok_status (concatenated reads) text
unfolding answer execute_script send
answer-AsksFor files round r c stem extension program reads asks is_open pipes all =
    let text = create_string_response (concatenated reads) new_response in
    (
      text.response,
      rw
          (
            asks.has_type,
            asks.no_post,
            has_path-asked r stem extension program asks,
            is_script-asked r stem extension program asks,
            command-asked r stem extension program asks,
            pipes,
            read_output-all reads all,
            is_open,
          )
          refl,
      create_string_response-Framed (concatenated reads),
    )
