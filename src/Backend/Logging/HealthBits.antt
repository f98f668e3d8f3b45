-- ===== src/Backend/Logging/HealthBits.antt =====
-- When a health warning is logged.
use smartmontools_go.Base.{
  ℕ, ◌+◌, String, true, ◌||◌, Option, none, some, ◌≡◌, ◌≢◌, refl, sym, arith, eqb, ◌∙◌, lookup,
  lookup-insert_self, length, if◌then◌else◌,
}
use smartmontools_go.Types.{SmartInfo, ExitCodeInfo}
use smartmontools_go.Backend.State.{State}
use smartmontools_go.Backend.Logging.{same_bits, log_bits, log_codes, log_health_bits}

-- the health bits of an info, 0 where it has no exit code information
abbrev pub bits_of : Option ExitCodeInfo → ℕ
bits_of none = 0
bits_of (some codes) = codes.health_bits

same_bits-some : (a b : ℕ) → same_bits (some a) b ≡ eqb a b
unfolding same_bits
same_bits-some a b = refl

log_bits-count :
    (path : String) (bits : ℕ) (s : State)
    → length (log_bits path bits s).logs
      ≡ (if same_bits (lookup path s.health_bits_cache) bits then 0 else 1) + length s.logs
unfolding log_bits
log_bits-count path bits s = ground arith

log_bits-known :
    (path : String) (bits : ℕ) (s : State)
    → same_bits (lookup path s.health_bits_cache) bits ≡ true
    → log_bits path bits s ≡ s
unfolding log_bits
log_bits-known path bits s h = ground arith

log_bits-lookup :
    (path : String) (bits : ℕ) (s : State)
    → lookup path (log_bits path bits s).health_bits_cache ≡ some bits
unfolding log_bits same_bits
log_bits-lookup path bits s = ground (arith, lookup-insert_self path bits s.health_bits_cache)

log_bits-again :
    (path : String) (bits : ℕ) (s : State)
    → log_bits path bits (log_bits path bits s) ≡ log_bits path bits s
log_bits-again path bits s =
    log_bits-known path bits (log_bits path bits s)
      (rw (log_bits-lookup path bits s, same_bits-some) (ground arith))

module _ (path : String) where
  log_codes-again :
      (codes : Option ExitCodeInfo) (s : State)
      → log_codes path codes (log_codes path codes s) ≡ log_codes path codes s
  unfolding log_codes
  log_codes-again none s = refl
  log_codes-again (some codes) s = ground (arith, log_bits-again path codes.health_bits s)

  -- Reporting the same info of a path a second time logs nothing and changes nothing.
  pub log_health_bits-again :
      (i : SmartInfo) (s : State)
      → log_health_bits path i (log_health_bits path i s) ≡ log_health_bits path i s
  unfolding log_health_bits
  log_health_bits-again i s = log_codes-again i.exit_code_info s

  log_codes-count :
      (codes : Option ExitCodeInfo) (s : State)
      → length (log_codes path codes s).logs
        ≡ (if eqb (bits_of codes) 0 || same_bits (lookup path s.health_bits_cache) (bits_of codes)
            then 0
            else 1)
          + length s.logs
  unfolding log_codes
  log_codes-count none s = ground arith
  log_codes-count (some codes) s = ground (arith, log_bits-count path codes.health_bits s)

  -- One warning is logged exactly if the health bits are not 0 and are not those that were recorded last
  -- for the path.
  log_health_bits-count :
      (i : SmartInfo) (s : State)
      → let bits = bits_of i.exit_code_info in
        length (log_health_bits path i s).logs
        ≡ (if eqb bits 0 || same_bits (lookup path s.health_bits_cache) bits then 0 else 1)
          + length s.logs
  unfolding log_health_bits
  log_health_bits-count i s = log_codes-count i.exit_code_info s

  log_codes-lookup :
      (codes : Option ExitCodeInfo) (s : State)
      → bits_of codes ≢ 0
      → lookup path (log_codes path codes s).health_bits_cache ≡ some (bits_of codes)
  unfolding log_codes
  log_codes-lookup none s h = absurd (h refl)
  log_codes-lookup (some codes) s h = ground (arith, log_bits-lookup path codes.health_bits s)

  new_bits_logged :
      (i : SmartInfo) (s : State) (prev : ℕ)
      → bits_of i.exit_code_info ≢ 0
      → lookup path s.health_bits_cache ≡ some prev
      → prev ≢ bits_of i.exit_code_info
      → length (log_health_bits path i s).logs ≡ 1 + length s.logs
  new_bits_logged i s prev h last d =
      log_health_bits-count i s
      ∙ rw (last, same_bits-some) (new_lem prev (bits_of i.exit_code_info) (length s.logs) h d)
    where
      new_lem : (a b n : ℕ) → b ≢ 0 → a ≢ b → (if eqb b 0 || eqb a b then 0 else 1) + n ≡ 1 + n
      new_lem a b n h d = ground arith

  -- A drive that alternates between two different patterns of health bits, neither of them 0, is warned
  -- about on every report: a pattern is forgotten as soon as another one is reported.
  pub log_health_bits_alternating :
      (i j : SmartInfo) (s : State)
      → bits_of i.exit_code_info ≢ 0
      → bits_of j.exit_code_info ≢ 0
      → bits_of i.exit_code_info ≢ bits_of j.exit_code_info
      → lookup path s.health_bits_cache ≡ some (bits_of j.exit_code_info)
      → length (log_health_bits path j (log_health_bits path i s)).logs ≡ 2 + length s.logs
  log_health_bits_alternating i j s hi hj d last =
      let first = new_bits_logged i s (bits_of j.exit_code_info) hi last (λ e. d (sym e)) in
      let second =
        new_bits_logged j (log_health_bits path i s) (bits_of i.exit_code_info) hj
          (unfold log_health_bits in log_codes-lookup i.exit_code_info s hi) d in
      omega (arith, first, second)
