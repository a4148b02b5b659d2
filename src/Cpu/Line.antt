-- ===== src/Cpu/Line.antt =====
-- What `get_cpu_metrics` reads off a line of /proc/stat.
use jni_demo_system_monitor.Text.Spaced.{spaced, strtoul-spaced, spaced-AtBreak}
use jni_demo_system_monitor.Base.{
  ℕ, ◌+◌, ◌*◌, ◌%◌, ◌<◌, ◌≡◌, ◌≢◌, refl, arith, List, [], ◌∷◌, ◌++◌, All, Bytes, u64_mod, ap, sym,
  ◌∙◌,
}
use jni_demo_system_monitor.Cpu.{
  Cpu, zero_cpu, add_msec, four_metrics, three_metrics, sum_up, get_cpu_metrics, and_three,
  and_steal,
}
use jni_demo_system_monitor.Double.{Double, IsExact, exact_bound}
use jni_demo_system_monitor.Text.{head_byte}
use jni_demo_system_monitor.Text.Number.{strtoul}
use jni_demo_system_monitor.Text.Token.{IsWord, IsDigits, NoDigit, value, skip_token-word}

-- Decimal numbers whose multiples by `k` are exact in a double.
abbrev pub IsCount : ℕ → Bytes → Type 0
IsCount k w = (w ≢ []) × IsDigits w × (value 0 w < u64_mod) × (value 0 w * k < exact_bound)

strtoul-count :
    (k : ℕ) (w : Bytes) (ws : List Bytes) (rest : Bytes)
    → IsCount k w
    → NoDigit rest
    → strtoul 10 (spaced (w ∷ ws) rest) ≡ (value 0 w, spaced ws rest)
strtoul-count k w ws rest (ne, digits, fits, _) h = strtoul-spaced w ws rest (ne, digits, fits) h

module _ (d : Double) (exact : IsExact d) (ticks k : ℕ) (pos : 0 < ticks)
    (whole : k * ticks ≡ 1000) where
  add_msec-zero : (s : ℕ) → s * k < exact_bound → add_msec d ticks 0 s ≡ s * k
  unfolding add_msec
  add_msec-zero s h =
      let sum : d.add (d.from_u64 0) (d.from_u64 (s * k)) ≡ d.from_u64 (s * k) =
        exact.add-from_u64 0 (s * k) (omega (arith, h)) ∙ ap d.from_u64 (omega arith) in
      let factor : d.div (d.from_u64 1000) (d.from_u64 ticks) ≡ d.from_u64 k =
        ap (λ n. d.div (d.from_u64 n) (d.from_u64 ticks)) (sym whole)
        ∙ exact.div-from_u64 k ticks pos (omega (arith, whole)) in
      rw (add_msec, factor, exact.mul-from_u64 s k h, sum) (exact.to_u64-from_u64 (s * k) h)

  abbrev msec : Bytes → ℕ
  msec w = value 0 w * k

  four_metrics-spaced :
      (a b c e : Bytes) (ws : List Bytes) (rest : Bytes)
      → All (IsCount k) (a ∷ b ∷ c ∷ e ∷ [])
      → NoDigit rest
      → four_metrics d ticks zero_cpu (spaced (a ∷ b ∷ c ∷ e ∷ ws) rest) ≡ (
        record zero_cpu { user = msec a; nice = msec b; sys = msec c; idle = msec e },
        spaced ws rest,
      )
  unfolding four_metrics
  four_metrics-spaced a b c e ws rest (ha, (hb, (hc, (he, _)))) h =
      rw
        (
          strtoul-count k a (b ∷ c ∷ e ∷ ws) rest ha h,
          strtoul-count k b (c ∷ e ∷ ws) rest hb h,
          strtoul-count k c (e ∷ ws) rest hc h,
          strtoul-count k e ws rest he h,
          add_msec-zero (value 0 a) ha.3,
          add_msec-zero (value 0 b) hb.3,
          add_msec-zero (value 0 c) hc.3,
          add_msec-zero (value 0 e) he.3,
        )
        refl

  and_three-spaced :
      (cpu : Cpu) (a b c : Bytes) (ws : List Bytes) (rest : Bytes)
      → All (IsCount k) (a ∷ b ∷ c ∷ [])
      → NoDigit rest
      → (cpu.wait ≡ 0) × (cpu.hi ≡ 0) × (cpu.si ≡ 0)
      → and_three d ticks (cpu, spaced (a ∷ b ∷ c ∷ ws) rest)
        ≡ (record cpu { wait = msec a; hi = msec b; si = msec c }, spaced ws rest)
  unfolding and_three three_metrics head_byte spaced
  and_three-spaced cpu a b c ws rest (ha, (hb, (hc, _))) h (z1, z2, z3) =
      rw
        (
          strtoul-count k a (b ∷ c ∷ ws) rest ha h,
          strtoul-count k b (c ∷ ws) rest hb h,
          strtoul-count k c ws rest hc h,
          z1,
          z2,
          z3,
          add_msec-zero (value 0 a) ha.3,
          add_msec-zero (value 0 b) hb.3,
          add_msec-zero (value 0 c) hc.3,
        )
        refl

  and_steal-spaced :
      (cpu : Cpu) (w : Bytes) (ws : List Bytes) (rest : Bytes)
      → IsCount k w
      → NoDigit rest
      → cpu.steal ≡ 0
      → and_steal d ticks (cpu, spaced (w ∷ ws) rest) ≡ record cpu { steal = msec w }
  unfolding and_steal head_byte spaced
  and_steal-spaced cpu w ws rest hw h z =
      rw (strtoul-count k w ws rest hw h, z, add_msec-zero (value 0 w) hw.3) refl

  -- The line of a CPU, a name and eight decimal numbers each behind one space, with whatever follows
  -- (guest times), gives each time in milliseconds and their sum. This is for a clock whose ticks are
  -- `k` milliseconds each, and for numbers whose milliseconds a double holds exactly.
  pub get_cpu_metrics-line :
      (name user nice sys idle wait hi si steal rest : Bytes)
      → IsWord name
      → All (IsCount k) (user ∷ nice ∷ sys ∷ idle ∷ wait ∷ hi ∷ si ∷ steal ∷ [])
      → NoDigit rest
      → get_cpu_metrics d ticks zero_cpu
          (name ++ spaced (user ∷ nice ∷ sys ∷ idle ∷ wait ∷ hi ∷ si ∷ steal ∷ []) rest)
        ≡ record {
          user = msec user;
          nice = msec nice;
          sys = msec sys;
          idle = msec idle;
          wait = msec wait;
          hi = msec hi;
          si = msec si;
          steal = msec steal;
          total =
              msec user
              + msec nice
              + msec sys
              + msec idle
              + msec wait
              + msec hi
              + msec si
              + msec steal;
        }
  unfolding get_cpu_metrics sum_up
  get_cpu_metrics-line name user nice sys idle wait hi si steal rest hn all h =
      let (h1, (h2, (h3, (h4, (h5, (h6, (h7, (h8, _)))))))) = all in
      let sum : (msec user
              + msec nice
              + msec sys
              + msec idle
              + msec wait
              + msec hi
              + msec si
              + msec steal)
            % u64_mod
          ≡ msec user
            + msec nice
            + msec sys
            + msec idle
            + msec wait
            + msec hi
            + msec si
            + msec steal =
        omega (arith, h1.3, h2.3, h3.3, h4.3, h5.3, h6.3, h7.3, h8.3) in
      let start =
        four_metrics-spaced user nice sys idle (wait ∷ hi ∷ si ∷ steal ∷ []) rest
          (h1, (h2, (h3, (h4, tt)))) h in
      let middle =
        and_three-spaced
          (record zero_cpu { user = msec user; nice = msec nice; sys = msec sys; idle = msec idle })
          wait hi si (steal ∷ []) rest (h5, (h6, (h7, tt))) h (refl, refl, refl) in
      let end = and_steal-spaced _ steal [] rest h8 h refl in
      ap (λ p. sum_up (and_steal d ticks (and_three d ticks (four_metrics d ticks zero_cpu p))))
        (skip_token-word name _ hn (spaced-AtBreak user _ rest))
      ∙ ap (λ p. sum_up (and_steal d ticks (and_three d ticks p))) start
      ∙ ap (λ p. sum_up (and_steal d ticks p)) middle
      ∙ ap sum_up end
      ∙ rw sum refl
