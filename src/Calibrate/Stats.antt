-- ===== src/Calibrate/Stats.antt =====
-- The p-value of internal/calibrate/stats.go. Package math is an interface.
use go_cascade.Base.{
  inr, inl, Bool-cases, true, ◌≡◌, leb, if◌then◌else◌, ℤ, pos, negsuc, ℕ, zero, suc, ◌+◌, ◌-◌, ◌||◌,
}
use go_cascade.Float.{Float}

-- What the code uses of package math, and the conversion `int(x)`.
pub record Math {ℓ} (F : Type ℓ) : Type ℓ where
  pub exp : F → F
  pub log : F → F
  pub lgamma : F → F
  pub abs : F → F
  pub neg : F → F
  pub ceil : F → F
  pub round : F → F
  pub floor : F → F
  pub min_of : F → F → F
  pub max_of : F → F → F
  pub inf : F
  pub euler : F
  pub to_int : F → ℤ

module _ {ℓ} {F : Type ℓ} ⦃fl : Float F⦄ ⦃m : Math F⦄ where
  open fl use {lit, of_nat, add, sub, mul, div, lt, le}
  open m use {exp, log, lgamma, abs, neg, ceil, min_of, max_of, inf, euler, to_int}

  -- `if math.Abs(d) < tiny { d = tiny }`
  abbrev floored : F → F
  floored d = if lt (abs d) (lit 1 300) then lit 1 300 else d

  -- The rounds `k..maxIter` of the continued fraction, with `left` of them to go.
  betacf_loop : ℕ → ℕ → (a b x c d h : F) → F
  betacf_loop zero k a b x c d h = h
  betacf_loop (suc left) k a b x c d h =
      let qab = add a b in
      let qap = add a (lit 1 0) in
      let qam = sub a (lit 1 0) in
      let fm = of_nat k in
      let m2 = mul (lit 2 0) fm in
      let aa = div (mul (mul fm (sub b fm)) x) (mul (add qam m2) (add a m2)) in
      let d1 = floored (add (lit 1 0) (mul aa d)) in
      let c1 = floored (add (lit 1 0) (div aa c)) in
      let d1i = div (lit 1 0) d1 in
      let h1 = mul h (mul d1i c1) in
      let ab = div (mul (mul (neg (add a fm)) (add qab fm)) x) (mul (add a m2) (add qap m2)) in
      let d2 = floored (add (lit 1 0) (mul ab d1i)) in
      let c2 = floored (add (lit 1 0) (div ab c1)) in
      let d2i = div (lit 1 0) d2 in
      let del = mul d2i c2 in
      let h2 = mul h1 del in
      let rest = betacf_loop left (suc k) a b x c2 d2i h2 in
      if lt (abs (sub del (lit 1 0))) (lit 3 14) then h2 else rest

  betacf : F → F → F → F
  unfolding betacf_loop
  betacf a b x =
      let qab = add a b in
      let qap = add a (lit 1 0) in
      let d = div (lit 1 0) (floored (sub (lit 1 0) (div (mul qab x) qap))) in
      betacf_loop 300 1 a b x (lit 1 0) d d

  reg_inc_beta : F → F → F → F
  unfolding betacf
  reg_inc_beta a b x =
      let la = lgamma (add a b) in
      let lb = lgamma a in
      let lc = lgamma b in
      let front =
        exp (add (add (sub (sub la lb) lc) (mul a (log x))) (mul b (log (sub (lit 1 0) x)))) in
      let low = div (mul front (betacf a b x)) a in
      let high = sub (lit 1 0) (div (mul front (betacf b a (sub (lit 1 0) x))) b) in
      if le x (lit 0 0)
      then lit 0 0
      else if le (lit 1 0) x
      then lit 1 0
      else if lt x (div (add a (lit 1 0)) (add (add a b) (lit 2 0)))
      then low
      else high

  -- P(X <= k) for X ~ Binomial(n, p)
  unfoldable pub binom_cdf : ℤ → ℕ → F → F
  unfolding reg_inc_beta
  binom_cdf (negsuc j) n p = lit 0 0
  binom_cdf (pos k) n p =
      let tail = reg_inc_beta (of_nat (n - k)) (of_nat (k + 1)) (sub (lit 1 0) p) in
      if leb n k
      then lit 1 0
      else if le p (lit 0 0)
      then lit 1 0
      else if le (lit 1 0) p
      then lit 0 0
      else tail

  -- The Kullback-Leibler divergence between Bernoulli(a) and Bernoulli(b).
  unfoldable pub h1 : F → F → F
  h1 a0 b =
      let a = min_of (max_of a0 (lit 0 0)) (lit 1 0) in
      let t1 = if lt (lit 1 12) a then mul a (log (div a b)) else lit 0 0 in
      let t2 =
        if lt a (lit 999_999_999_999 12)
        then mul (sub (lit 1 0) a) (log (div (sub (lit 1 0) a) (sub (lit 1 0) b)))
        else lit 0 0 in
      if le b (lit 1 12) || le (lit 999_999_999_999 12) b then inf else add t1 t2

  unfoldable pub hoeffding_bentkus : F → ℕ → F → F
  unfolding h1 binom_cdf
  hoeffding_bentkus rhat n alpha =
      let p_hoeff = exp (mul (neg (of_nat n)) (h1 rhat alpha)) in
      let k = to_int (ceil (mul (of_nat n) rhat)) in
      let p_bentkus = mul euler (binom_cdf k n alpha) in
      if leb n 0
      then lit 1 0
      else if le alpha rhat
      then lit 1 0
      else min_of (lit 1 0) (min_of p_hoeff p_bentkus)

  unfoldable pub min_calibration_size : F → F → ℤ
  min_calibration_size alpha delta =
      if le alpha (lit 0 0) || le (lit 1 0) alpha || le delta (lit 0 0) || le (lit 1 0) delta
      then pos 0
      else to_int (ceil (div (log delta) (log (sub (lit 1 0) alpha))))

  -- No evidence below alpha: the p-value is 1.
  pub hoeffding_bentkus_risky :
      (rhat : F) (n : ℕ) (alpha : F)
      → le alpha rhat ≡ true
      → hoeffding_bentkus rhat n alpha ≡ lit 1 0
  unfolding hoeffding_bentkus
  hoeffding_bentkus_risky rhat n alpha h = elim (Bool-cases (leb n 0)) [
    | inl e ↦ rw e
    | inr e ↦ rw (e, h)
  ]
