-- ===== src/Net/Retry/Attempts.antt =====
-- How often the loop of pkg/net/retry.go calls its function, and what it waits in between. The
-- world is a script: what each call and each wait will bring, and the waits made so far.
use go_backend_core.Prelude.{
  ℕ, zero, suc, ◌<◌, ◌≡◌, refl, sym, ap, ◌∙◌, Option, none, some, List, [], ◌∷◌, ◌++◌, map,
  append_assoc, append-nil, arith, length,
}
use go_backend_core.Prelude.Int.{ℤ, pos, pos_part}
use go_backend_core.Net.Retry.{
  RetryConfig, calculate_backoff, RetryError, canceled, exhausted, attempts, retry,
}

pub record Script (E : Type 0) : Type 0 where
  pub calls : List (Option E)
  pub pauses : List (Option E)
  pub waits : List ℤ

module _ {E : Type 0} where
  abbrev pub script : List (Option E) → List (Option E) → List ℤ → Script E
  script calls pauses waits = record { calls = calls; pauses = pauses; waits = waits }

  call_in : List (Option E) → Script E → Script E × Option E
  call_in [] s = (s, none)
  call_in (o ∷ os) s = (record s { calls = os }, o)

  -- The next outcome of the function; an empty script succeeds.
  unfoldable pub call : Script E → Script E × Option E
  unfolding call_in
  call s = call_in s.calls s

  pause_in : List (Option E) → Script E → ℤ → Script E × Option E
  pause_in [] s wait = (record s { waits = s.waits ++ wait ∷ [] }, none)
  pause_in (o ∷ os) s wait = (record s { pauses = os; waits = s.waits ++ wait ∷ [] }, o)

  -- A wait that ends by the timer or by the context; an empty script is never cancelled.
  unfoldable pub pause : Script E → ℤ → Script E × Option E
  unfolding pause_in
  pause s wait = pause_in s.pauses s wait

abbrev pub last_of : {E : Type 0} → Option E → List E → Option E
last_of last [] = last
last_of last (e ∷ es) = last_of (some e) es

-- One wait that ends by the timer for each of the errors.
abbrev pub passes : {E : Type 0} → List E → List (Option E)
passes [] = []
passes (e ∷ es) = none ∷ passes es

module _ (jitter : ℤ → ℤ) (config : RetryConfig) where
  -- The waits before `count` attempts, the first of them being number `n`.
  abbrev pub backoffs : ℕ → ℕ → List ℤ
  backoffs n zero = []
  backoffs n (suc count) = calculate_backoff jitter config n ∷ backoffs (suc n) count

module _ {E : Type 0} (jitter : ℤ → ℤ) (config : RetryConfig) where
  abbrev loop : ℕ → ℕ → Option E → Script E → Script E × Option (RetryError E)
  loop = attempts jitter pause call config

  succeeds_after :
      (es : List E) (rest : List (Option E)) (ws : List ℤ) (left n : ℕ) (last : Option E)
      → length es < left
      → loop left (suc n) last (script (map some es ++ none ∷ rest) [] ws)
        ≡ (script rest [] (ws ++ backoffs jitter config (suc n) (suc (length es))), none)
  unfolding attempts call pause
  succeeds_after [] rest ws (suc left) n last h = refl
  succeeds_after (e ∷ es) rest ws (suc left) n last h =
      succeeds_after es rest (ws ++ calculate_backoff jitter config (suc n) ∷ []) left (suc n)
        (some e) (omega arith)
      ∙ ap (λ l. (script rest [] l, none)) (append_assoc ws _ _)
  succeeds_after es rest ws zero n last h = absurd (omega arith)

  exhausts_after :
      (es : List E) (rest : List (Option E)) (ws : List ℤ) (n : ℕ) (last : Option E)
      → loop (length es) (suc n) last (script (map some es ++ rest) [] ws) ≡ (
        script rest [] (ws ++ backoffs jitter config (suc n) (length es)),
        some (exhausted config.max_attempts (last_of last es)),
      )
  unfolding attempts call pause
  exhausts_after [] rest ws n last =
      ap (λ l. (script rest [] l, some (exhausted config.max_attempts last))) (sym (append-nil ws))
  exhausts_after (e ∷ es) rest ws n last =
      exhausts_after es rest (ws ++ calculate_backoff jitter config (suc n) ∷ []) (suc n) (some e)
      ∙ ap (λ l. (script rest [] l, some (exhausted config.max_attempts (last_of (some e) es))))
          (append_assoc ws _ _)

  cancels_after :
      (es : List E) (stop : E) (calls : List (Option E)) (ps : List (Option E)) (ws : List ℤ)
      (left n : ℕ) (last : Option E)
      → length es < left
      → loop left (suc n) last (script (map some es ++ calls) (passes es ++ some stop ∷ ps) ws) ≡ (
        script calls ps (ws ++ backoffs jitter config (suc n) (suc (length es))),
        some (canceled stop),
      )
  unfolding attempts call pause
  cancels_after [] stop calls ps ws (suc left) n last h = refl
  cancels_after (e ∷ es) stop calls ps ws (suc left) n last h =
      cancels_after es stop calls ps (ws ++ calculate_backoff jitter config (suc n) ∷ []) left
        (suc n) (some e) (omega arith)
      ∙ ap (λ l. (script calls ps l, some (canceled stop))) (append_assoc ws _ _)
  cancels_after es stop calls ps ws zero n last h = absurd (omega arith)

  starts_and_succeeds :
      (es : List E) (rest : List (Option E)) (left : ℕ)
      → length es < left
      → loop left 0 none (script (map some es ++ none ∷ rest) [] [])
        ≡ (script rest [] (backoffs jitter config 1 (length es)), none)
  unfolding attempts call
  starts_and_succeeds [] rest (suc left) h = refl
  starts_and_succeeds (e ∷ es) rest (suc left) h =
      succeeds_after es rest [] left 0 (some e) (omega arith)
  starts_and_succeeds es rest zero h = absurd (omega arith)

  starts_and_cancels :
      (e stop : E) (es : List E) (calls ps : List (Option E)) (left : ℕ)
      → suc (length es) < left
      → loop left 0 none (script (some e ∷ map some es ++ calls) (passes es ++ some stop ∷ ps) [])
        ≡ (script calls ps (backoffs jitter config 1 (suc (length es))), some (canceled stop))
  unfolding attempts call
  starts_and_cancels e stop es calls ps (suc left) h =
      cancels_after es stop calls ps [] left 0 (some e) (omega arith)
  starts_and_cancels e stop es calls ps zero h = absurd (omega arith)

  starts_and_exhausts :
      (e : E) (es : List E) (rest : List (Option E))
      → loop (suc (length es)) 0 none (script (some e ∷ map some es ++ rest) [] []) ≡ (
        script rest [] (backoffs jitter config 1 (length es)),
        some (exhausted config.max_attempts (last_of (some e) es)),
      )
  unfolding attempts call
  starts_and_exhausts e es rest = exhausts_after es rest [] 0 (some e)

-- A function that fails with `es` and then succeeds makes the retry succeed, if there are fewer
-- failures than attempts: it is called once more than it failed, after waiting for the backoffs 1
-- to `length es`, in order, on a context that is never cancelled.
pub retry_succeeds :
    {E : Type 0} (jitter : ℤ → ℤ) (config : RetryConfig) (es : List E) (rest : List (Option E))
    → length es < pos_part config.max_attempts
    → retry jitter pause call config (script (map some es ++ none ∷ rest) [] [])
      ≡ (script rest [] (backoffs jitter config 1 (length es)), none)
unfolding retry
retry_succeeds jitter config es rest h = starts_and_succeeds jitter config es rest _ h

-- A function that fails as often as there are attempts, at least one, makes the retry fail with its
-- last error: it is called that often and no more, with one backoff between two calls, on a context
-- that is never cancelled.
pub retry_exhausts :
    {E : Type 0} (jitter : ℤ → ℤ) (config : RetryConfig) (e : E) (es : List E)
    (rest : List (Option E))
    → config.max_attempts ≡ pos (suc (length es))
    → retry jitter pause call config (script (some e ∷ map some es ++ rest) [] []) ≡ (
      script rest [] (backoffs jitter config 1 (length es)),
      some (exhausted config.max_attempts (last_of (some e) es)),
    )
unfolding retry
retry_exhausts jitter config e es rest h =
    ap
      (λ n.
        attempts jitter pause call config n 0 none (script (some e ∷ map some es ++ rest) [] []))
      (ap pos_part h)
    ∙ starts_and_exhausts jitter config e es rest

-- A context that is cancelled in the wait after `e` and `es`, where another attempt was left, ends
-- the retry with the context's error, and the function is not called again.
pub retry_cancels :
    {E : Type 0} (jitter : ℤ → ℤ) (config : RetryConfig) (e stop : E) (es : List E)
    (calls ps : List (Option E))
    → suc (length es) < pos_part config.max_attempts
    → retry jitter pause call config
        (script (some e ∷ map some es ++ calls) (passes es ++ some stop ∷ ps) [])
      ≡ (script calls ps (backoffs jitter config 1 (suc (length es))), some (canceled stop))
unfolding retry
retry_cancels jitter config e stop es calls ps h =
    starts_and_cancels jitter config e stop es calls ps _ h
