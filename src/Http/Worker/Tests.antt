-- ===== src/Http/Worker/Tests.antt =====
-- A script that prints in two pieces.
use ivos.Base.{
  ◌≡◌, refl, arith, none, inr, List, [], ◌∷◌, some, done, if◌then◌else◌, Text, codes, same,
}
use ivos.Http.Request.{get, Request, new_request}
use ivos.Http.Response.{Files, ok_status}
use ivos.Http.Response.Framing.{Framed}
use ivos.Http.Client.{Pipe, ended, fresh_client}
use ivos.Http.Worker.{Round, answer}
use ivos.Http.Worker.Scripts.{AsksFor, concatenated, answer-AsksFor}

abbrev no_files : Files
no_files name = none

abbrev hi : Request
hi = record new_request { type = some get; path = codes "/hi.php" }

abbrev pieces : List Text
pieces = codes "Hel" ∷ codes "lo" ∷ []

-- Only php prints.
abbrev prints : Pipe
prints (program, arguments) = if same program (codes "php") then some pieces else some []

abbrev round : Round
round = record { reading = ended; beyond = []; pipe = prints; uploads = [] }

hi-AsksFor : AsksFor hi (codes "/hi") (codes "php") (codes "php")
hi-AsksFor = record {
  type = get;
  has_type = refl;
  no_post = refl;
  named = refl;
  run_by = inr (inr (refl, refl));
}

answer-AsksFor_example :
    (text : Text) × (answer no_files round hi fresh_client
      ≡ done (record fresh_client { written = text ∷ [] }))
    × Framed ok_status (concatenated pieces) text
answer-AsksFor_example =
    answer-AsksFor no_files round hi fresh_client (codes "/hi") (codes "php") (codes "php") pieces
      hi-AsksFor refl refl ((λ e. ground arith), ((λ e. ground arith), tt))
