-- ===== src/Http/Text.antt =====
-- Text of the server, as bytes: what http_server/ uses of `std::string`, and `string_split` of
-- http_server/http/Request.cpp.
pub mod Find
pub mod Split
pub mod After
pub mod Join
pub mod Decimal
pub use ivos.Base.{Text, codes, drop, same, starts_with}
use ivos.Base.{
  ℕ, zero, suc, ◌+◌, ◌==◌, ltb, Bool, true, false, ◌||◌, List, [], ◌∷◌, ◌++◌, Option, none, some,
  Outcome, done, runs_on, ◌>>=◌, if◌then◌else◌, length, take, maybe,
}

abbrev pub later : Option ℕ → Option ℕ
later none = none
later (some n) = some (suc n)

-- s.find(delimiter); `none` is npos.
abbrev pub find : (delimiter s : Text) → Option ℕ
find delimiter [] = if starts_with delimiter [] then some 0 else none
find delimiter (c ∷ s) =
    let rest = find delimiter s in if starts_with delimiter (c ∷ s) then some 0 else later rest

-- iscntrl, in the "C" locale.
abbrev pub is_control : ℕ → Bool
is_control c = ltb c 32 || c == 127

-- token.erase(std::remove_if(token.begin(), token.end(), iscntrl), token.end())
abbrev pub remove_controls : Text → Text
remove_controls [] = []
remove_controls (c ∷ s) = if is_control c then remove_controls s else c ∷ remove_controls s

-- The loop of `string_split`, for at most `rounds` rounds.
unfoldable pub split_loop : (rounds : ℕ) → (input delimiter : Text) → Outcome (List Text)
split_loop zero input delimiter = runs_on
split_loop (suc rounds) input delimiter =
    maybe (find delimiter input) (done (input ∷ [])) λ position.
      split_loop rounds (drop (position + length delimiter) input) delimiter >>= λ rest.
      done (remove_controls (take position input) ∷ rest)

-- The argument is a reference and is left as the last token; see `last_token`.
unfoldable pub string_split : (input delimiter : Text) → Outcome (List Text)
unfolding split_loop
string_split input delimiter = split_loop (suc (length input)) input delimiter

abbrev pub last_token : List Text → Text
last_token [] = []
last_token (t ∷ []) = t
last_token (t ∷ u ∷ ts) = last_token (u ∷ ts)
