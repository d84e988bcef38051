-- ===== src/Http/Request/Refused.antt =====
-- First lines that `parse` does not survive.
use ivos.Base.{
  ℕ, ◌≡◌, ◌==◌, refl, sym, Bool-cases, ◌⊎◌, inl, inr, List, [], ◌∷◌, ◌++◌, append_assoc, Option,
  subst, arith, none, some, done, fault, ◌>>=◌,
}
use ivos.Http.Text.{Text, later, find, string_split}
use ivos.Http.Text.Find.{Lacks, find-Lacks}
use ivos.Http.Text.Split.{join, cleaned, AllFree, string_split-Cut}
use ivos.Http.Text.Join.{Pieces, string_split-join}
use ivos.Http.Request.{
  Request, space, to_request_type, read_first, read_fields, read_content_type, other_tokens, parse,
}
use ivos.Http.Request.Lines.{
  IsClean, IsClean-append, Lacks-return, remove_controls-return, remove_controls-IsClean,
}

later-none : (o : Option ℕ) → later o ≡ none → o ≡ none
later-none none h = refl
later-none (some k) h = cc

Lacks-find : (c : ℕ) (t : Text) → find (c ∷ []) t ≡ none → Lacks c t
Lacks-find c [] h = tt
Lacks-find c (x ∷ t) h = elim (Bool-cases (c == x)) [
  | inl here ↦ ground arith
  | inr other ↦ (other, Lacks-find c t (later-none (find (c ∷ []) t) (rw other at h)))
]

Pieces-AllFree :
    (c : ℕ) (t : Text) (ts : List Text) → AllFree (c ∷ []) (t ∷ ts) → Pieces c [] (t ∷ ts)
Pieces-AllFree c t [] (h, hs) = h
Pieces-AllFree c t (u ∷ ts) (h, hs) = (Lacks-find c t h, Pieces-AllFree c u ts hs)

-- A text up to its first delimiter of one byte is the first token, whatever follows.
split_first :
    (c : ℕ) (t rest : Text)
    → Lacks c t
    → (u : Text) × (us : List Text) × (string_split (t ++ (c ∷ rest)) (c ∷ [])
        ≡ done (cleaned (t ∷ u ∷ us)))
      × (join (c ∷ []) (u ∷ us) ≡ rest)
split_first c t rest lacks =
    let cut = string_split-Cut c [] rest in
    (
      cut.first,
      cut.others,
      subst
          (λ z. string_split (t ++ (c ∷ z)) (c ∷ []) ≡ done (cleaned (t ∷ cut.first ∷ cut.others)))
          cut.joined
          (string_split-join c [] t (cut.first ∷ cut.others)
            (lacks, Pieces-AllFree c cut.first cut.others cut.free)),
      cut.joined,
    )

read_first-fault :
    (method : Text) (ts : List Text) (r : Request)
    → to_request_type method ≡ none
    → read_first (method ∷ ts) r ≡ fault
read_first-fault method [] r h = refl
read_first-fault method (p ∷ []) r h = refl
read_first-fault method (p ∷ v ∷ rest) r h = rw h refl

read_words-fault :
    (word more : Text) (lines : List Text) (r : Request)
    → IsClean word
    → Lacks 0x20 word
    → (to_request_type word ≡ none) ⊎ Lacks 0x20 more
    → (string_split (word ++ (space ++ more)) space >>= λ tokens.
        read_first tokens r >>= λ r1. read_fields lines r1 >>= λ r2. read_content_type r2)
      ≡ fault
read_words-fault word more lines r clean lacks (inl unknown) =
    let (w, ws, tokens, _) = split_first 0x20 word more lacks in
    rw
      (
        tokens,
        remove_controls-IsClean word clean,
        read_first-fault word (cleaned (w ∷ ws)) r unknown,
      )
      refl
read_words-fault word more lines r clean lacks (inr lacks') =
    rw (string_split-join 0x20 [] word (more ∷ []) (lacks, find-Lacks 0x20 [] more lacks')) refl

-- A head whose first line has no control characters and whose first word is no method that the program
-- knows, or has two words only, ends in an exception or in an access out of range, whatever follows.
pub parse-fault :
    (word more rest : Text) (r : Request)
    → IsClean word
    → Lacks 0x20 word
    → IsClean more
    → (to_request_type word ≡ none) ⊎ Lacks 0x20 more
    → parse ((word ++ (space ++ more)) ++ (13 ∷ 10 ∷ rest)) r ≡ fault
unfolding parse
parse-fault word more rest r clean lacks clean_more bad =
    let clean_line = IsClean-append word (space ++ more) clean (refl, clean_more) in
    let (u, us, lines, _) =
      split_first 10 ((word ++ (space ++ more)) ++ (13 ∷ [])) rest
        (Lacks-return (word ++ (space ++ more)) clean_line) in
    rw
      (
        sym (append_assoc (word ++ (space ++ more)) (13 ∷ []) (10 ∷ rest)),
        lines,
        remove_controls-return (word ++ (space ++ more)) clean_line,
      )
      (read_words-fault word more
        (other_tokens (cleaned (((word ++ (space ++ more)) ++ (13 ∷ [])) ∷ u ∷ us))) r clean lacks
        bad)
