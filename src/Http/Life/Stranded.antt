-- ===== src/Http/Life/Stranded.antt =====
-- What stays behind when `run` exits with failure.
use ivos.Base.{ℕ, ◌<◌, ◌==◌, ◌≡◌, ◌∙◌, sym, subst, Bool, [], ◌∷◌, some, arith, Bool-cases, inl, inr}
use ivos.Http.System.{
  bind-goes_on, one, add, remove, available, System, Result, goes_on, exits, killed, crashes, waits,
  Action, then_on, ◌>>=◌, ◌>>◌, pure, check, open_queue,
}
use ivos.Http.Life.Working.{start_logger-works}
use ivos.Http.Life.{
  Kept, World, start_logger, set_up_socket, start_clients, serve_connections, stop_process,
  stop_clients, run_server,
}
use ivos.Http.Life.Keeping.{
  Keeps, Keeps-trans, KeptBy, check-keeps, open_queue-keeps, set_up_socket-keeps,
  start_clients-keeps, serve_connections-keeps,
}

-- Stopping processes never exits.
abbrev NeverExits {ℓ} : {A : Type ℓ} → Result A → Type 0
NeverExits (goes_on a w) = Unit {0}
NeverExits (exits code w) = ⊥
NeverExits (killed w) = Unit {0}
NeverExits crashes = Unit {0}
NeverExits waits = Unit {0}

then_never {ℓ κ} :
    {A : Type ℓ} {B : Type κ} (r : Result A) (f : A → Action B)
    → NeverExits r
    → ((a : A) (w : System) → NeverExits (f a w))
    → NeverExits (then_on r f)
then_never (goes_on a w) f p q = q a w
then_never (exits code w) f p q = p
then_never (killed w) f p q = tt
then_never crashes f p q = tt
then_never waits f p q = tt

stop_process-never :
    (stops : ℕ → Bool) (pid : ℕ) (w : System) → NeverExits (stop_process stops pid w)
unfolding stop_process
stop_process-never stops pid w = elim (Bool-cases (pid == 0)) [
  | inl none_such ↦ rw none_such tt
  | inr positive ↦ elim (Bool-cases (stops pid)) [
    | inl ends ↦ rw (positive, ends) tt
    | inr runs ↦ rw (positive, runs) tt
  ]
]

stop_clients-never :
    (stops : ℕ → Bool) (kept : Kept) (w : System) → NeverExits (stop_clients stops kept w)
unfolding stop_clients
stop_clients-never stops [] w = tt
stop_clients-never stops ((pid, mine) ∷ kept) w =
    let w' = record w { descriptors = remove mine w.descriptors } in
    then_never (stop_process stops pid w') _ (stop_process-never stops pid w')
      (λ _. stop_clients-never stops kept)

-- An exit is with 1, and leaves all that there was.
abbrev Leaves {ℓ} : {A : Type ℓ} → System → Result A → Type 0
Leaves v (goes_on a w) = Unit {0}
Leaves v (exits code w) = (code ≡ 1) × Keeps v w
Leaves v (killed w) = Unit {0}
Leaves v crashes = Unit {0}
Leaves v waits = Unit {0}

Leaves-never {ℓ} : {A : Type ℓ} (v : System) (r : Result A) → NeverExits r → Leaves v r
Leaves-never v (goes_on a w) p = tt
Leaves-never v (exits code w) p = absurd p
Leaves-never v (killed w) p = tt
Leaves-never v crashes p = tt
Leaves-never v waits p = tt

Leaves-trans {ℓ} : {A : Type ℓ} (u v : System) (r : Result A) → Keeps u v → Leaves v r → Leaves u r
Leaves-trans u v (goes_on a w) p q = tt
Leaves-trans u v (exits code w) p (c, q) = (c, Keeps-trans p q)
Leaves-trans u v (killed w) p q = tt
Leaves-trans u v crashes p q = tt
Leaves-trans u v waits p q = tt

then-Leaves {ℓ κ} :
    {A : Type ℓ} {B : Type κ} (r : Result A) (f : A → Action B) (v : System)
    → KeptBy v r
    → ((a : A) (w : System) → Leaves w (f a w))
    → Leaves v (then_on r f)
then-Leaves (goes_on a w) f v p q = Leaves-trans v w (f a w) p (q a w)
then-Leaves (exits code w) f v p q = p
then-Leaves (killed w) f v p q = tt
then-Leaves crashes f v p q = tt
then-Leaves waits f v p q = tt

-- `run` behind the start of the logger.
abbrev behind_logger : World → (logger_pid : ℕ) → Action (ℕ × ℕ)
behind_logger e logger_pid = do
  server_fd ← set_up_socket e.calls
  available_clients ← open_queue available e.available_queue
  kept ← start_clients e.clients
  check e.sigaction_works
  serve_connections e.left e.clients e.events
  stop_clients e.stops kept
  stop_process e.stops logger_pid
  pure (server_fd, available_clients)

behind_logger-Leaves :
    (e : World) (logger_pid : ℕ) (v : System) → Leaves v (behind_logger e logger_pid v)
behind_logger-Leaves e logger_pid v =
    then-Leaves (set_up_socket e.calls v) _ v (set_up_socket-keeps e.calls v) λ server_fd v1.
      then-Leaves (open_queue available e.available_queue v1) _ v1
        (open_queue-keeps available e.available_queue v1)
        λ available_clients v2.
          then-Leaves (start_clients e.clients v2) _ v2 (start_clients-keeps e.clients v2)
            λ kept v3.
              then-Leaves (check e.sigaction_works v3) _ v3 (check-keeps e.sigaction_works v3)
                λ _ v4.
                  then-Leaves (serve_connections e.left e.clients e.events v4) _ v4
                    (serve_connections-keeps e.left e.clients e.events v4)
                    λ _ v5. Leaves-never v5 _ (
                      then_never (stop_clients e.stops kept v5) _
                        (stop_clients-never e.stops kept v5)
                        λ _ v6.
                          then_never (stop_process e.stops logger_pid v6) _
                            (stop_process-never e.stops logger_pid v6) λ _ v7. tt)

one_self : (pid : ℕ) → one pid pid ≡ 1
one_self pid = ground arith

-- Whenever `run` exits once the logger was forked, be it for want of a socket, an address in use or a
-- queue or a pair that it does not get: the code is 1, no process has been waited for, neither that of
-- the logger nor any that was there before, and every queue that had its name keeps it.
pub run_server-Stranded :
    (e : World) (pid code : ℕ) (w w' : System)
    → e.logger_forks ≡ some pid
    → run_server e w ≡ exits code w'
    → (code ≡ 1) × (0 < w'.running pid) × Keeps w w'
unfolding run_server
run_server-Stranded e pid code w w' forks ends =
    let w1 = record w { running = add pid w.running } in
    let runs =
      sym (
        bind-goes_on (start_logger e.logger_forks) (behind_logger e) w pid w1
          (start_logger-works e.logger_forks pid w forks))
      ∙ ends in
    let left = subst (Leaves w1) runs (behind_logger-Leaves e pid w1) in
    let more = left.1.running pid in
    (
      left.0,
      omega (arith, more, one_self pid),
      Keeps-trans (record { running = λ y. omega arith; linked = λ n h. h }) left.1,
    )
