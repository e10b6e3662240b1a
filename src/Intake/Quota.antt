-- ===== src/Intake/Quota.antt =====
-- What the rate limiter comes to: a quota for each key and window.
use realesatecrm.Base.{
  ℕ, suc, ◌+◌, ◌-◌, ◌≤◌, ◌<◌, ◌≡◌, refl, subst, ap, ◌∙◌, ◌⊎◌, inl, inr, Text, same_text,
  same_text-eq, true, List, [], ◌∷◌, ◌==◌, ltb, if◌then◌else◌, arith, Bool-cases,
}
use realesatecrm.Core.Errors.{Result, ok, raised}
use realesatecrm.Intake.RateLimit.{
  Redis, Verdict, admitted, exceeded, unavailable, key_of, window_seconds, judge, after_expire,
  after_incr, enforce_public_intake_rate_limit,
}

-- What Redis documents of INCR and EXPIRE within a window, in which no key expires: INCR adds one to the
-- counter of its key, EXPIRE of a positive time changes no counter (of 0 it deletes the key, and
-- nothing is said), and a command that fails may have been done or not, but takes no counter down.
pub record Counts {S : Type 0} (redis : Redis S) (value : S → Text → ℕ) : Type 0 where
  pub counted :
      (k : Text) (s s' : S) (n : ℕ)
      → redis.incr k s ≡ (ok n, s')
      → (n ≡ suc (value s k)) × (value s' k ≡ n)
  pub not_down : (k l : Text) (s : S) → value s l ≤ value (redis.incr k s).1 l
  pub unchanged : (k l : Text) (n : ℕ) (s : S) → 0 < n → value (redis.expire k n s).1 l ≡ value s l

abbrev pub Client : Type 0
Client = Text × Text

abbrev pub admission : Verdict → ℕ
admission admitted = 1
admission exceeded = 0
admission unavailable = 0

module _ {S : Type 0} (redis : Redis S) (limit : ℕ) where
  -- How many of these requests, one after the other, are admitted under the key.
  unfoldable pub admissions : Text → List Client → S → ℕ
  unfolding enforce_public_intake_rate_limit
  admissions key [] s = 0
  admissions key ((slug, ip) ∷ clients) s =
      let (verdict, s') = enforce_public_intake_rate_limit redis limit slug ip s in
      (if same_text (key_of slug ip) key then admission verdict else 0) + admissions key clients s'

  module _ (value : S → Text → ℕ) (laws : Counts redis value) where
    after_expire-kept :
        (key other : Text) (count n : ℕ) (s : S)
        → 0 < n
        → value (after_expire redis limit count (redis.expire key n s)).1 other ≡ value s other
    after_expire-kept key other count n s h =
        go (redis.expire key n s) (laws.unchanged key other n s h)
      where
        go :
            (r : Result (Unit {0}) × S)
            → value r.1 other ≡ value s other
            → value (after_expire redis limit count r).1 other ≡ value s other
        go (ok u, s') e = e
        go (raised x, s') e = e

    after_incr-kept :
        (key other : Text) (r : Result ℕ × S)
        → value (after_incr redis limit key r).1 other ≡ value r.1 other
    after_incr-kept key other (raised x, s) = refl
    after_incr-kept key other (ok count, s) = elim (Bool-cases (count == 1)) [
      | inl e ↦ rw e (after_expire-kept key other count window_seconds s (omega arith))
      | inr e ↦ rw e refl
    ]

    judge-within : (count : ℕ) → (admission (judge redis limit count) ≡ 0) ⊎ (count ≤ limit)
    judge-within count = ground arith

    after_expire-within :
        (count : ℕ) (r : Result (Unit {0}) × S)
        → (admission (after_expire redis limit count r).0 ≡ 0) ⊎ (count ≤ limit)
    after_expire-within count (ok u, s) = judge-within count
    after_expire-within count (raised x, s) = inl refl

    after_incr-within :
        (key : Text) (count : ℕ) (s : S)
        → (admission (after_incr redis limit key (ok count, s)).0 ≡ 0) ⊎ (count ≤ limit)
    after_incr-within key count s = elim (Bool-cases (count == 1)) [
      | inl e ↦ rw e (after_expire-within count (redis.expire key window_seconds s))
      | inr e ↦ rw e (judge-within count)
    ]

    -- A request that is admitted was below the limit, and counts.
    after_incr-counts :
        (key : Text) (s : S) (r : Result ℕ × S)
        → redis.incr key s ≡ r
        → (admission (after_incr redis limit key r).0 ≡ 0)
          ⊎ ((suc (value s key) ≤ limit) × (value r.1 key ≡ suc (value s key)))
    after_incr-counts key s (raised x, s') h = inl refl
    after_incr-counts key s (ok count, s') h =
        let (next, now) = laws.counted key s s' count h in
        elim (after_incr-within key count s') [
          | inl e ↦ inl e
          | inr below ↦ inr (omega (arith, below, next), now ∙ next)
        ]

    admission-one : (v : Verdict) → admission v ≤ 1
    admission-one admitted = omega arith
    admission-one exceeded = omega arith
    admission-one unavailable = omega arith

    counted-takes :
        (k key : Text) (s : S)
        → (if same_text k key then admission (after_incr redis limit k (redis.incr k s)).0 else 0)
            + (limit - value (after_incr redis limit k (redis.incr k s)).1 key)
          ≤ limit - value s key
    counted-takes k key s =
        let kept = after_incr-kept k key (redis.incr k s) in
        let down = laws.not_down k key s in
        let small = admission-one (after_incr redis limit k (redis.incr k s)).0 in
        elim (Bool-cases (same_text k key)) [
          | inr e ↦ rw e (omega (arith, kept, down))
          | inl e ↦ rw e (elim (after_incr-counts k s (redis.incr k s) refl) [
            | inl zero ↦ omega (arith, kept, down, zero)
            | inr (below, next) ↦
                let its = same_text-eq k key e in
                let below_key = subst (λ (l : Text). suc (value s l) ≤ limit) its below in
                let next_key =
                  subst (λ (l : Text). value (redis.incr k s).1 l ≡ suc (value s l)) its next in
                omega (arith, kept, small, below_key, next_key)
          ])
        ]

    -- What one request takes of the quota of a key.
    request-takes :
        (slug ip key : Text) (s : S)
        → (if same_text (key_of slug ip) key
              then admission (enforce_public_intake_rate_limit redis limit slug ip s).0
              else 0)
            + (limit - value (enforce_public_intake_rate_limit redis limit slug ip s).1 key)
          ≤ limit - value s key
    unfolding enforce_public_intake_rate_limit
    request-takes slug ip key s = elim (Bool-cases redis.connected) [
      | inl e ↦ rw e (counted-takes (key_of slug ip) key s)
      | inr e ↦ rw e (elim (Bool-cases (same_text (key_of slug ip) key)) [
        | inl f ↦ rw f (omega arith)
        | inr f ↦ rw f (omega arith)
      ])
    ]

    -- Of any requests within a window, from whichever clients and whatever Redis refuses in between, those
    -- that are admitted under a key are no more than the limit, less what the key has counted before.
    pub admissions-bounded :
        (key : Text) (clients : List Client) (s : S)
        → admissions key clients s ≤ limit - value s key
    unfolding admissions
    admissions-bounded key [] s = omega arith
    admissions-bounded key ((slug, ip) ∷ clients) s =
        let after = (enforce_public_intake_rate_limit redis limit slug ip s).1 in
        omega (arith, admissions-bounded key clients after, request-takes slug ip key s)

-- Redis answers every command.
pub record Answers {S : Type 0} (redis : Redis S) : Type 0 where
  pub is_connected : redis.connected ≡ true
  pub counts : (k : Text) (s : S) → (n : ℕ) × (s' : S) × (redis.incr k s ≡ (ok n, s'))
  pub expires : (k : Text) (n : ℕ) (s : S) → (s' : S) × (redis.expire k n s ≡ (ok tt, s'))

-- The quota of a key, as one would specify it: a counter, and a verdict by the requests counted before.
unfoldable pub quota : ℕ → ℕ → Verdict × ℕ
quota limit used = (if ltb used limit then admitted else exceeded, suc used)

module _ {S : Type 0} (redis : Redis S) (limit : ℕ) (value : S → Text → ℕ)
    (laws : Counts redis value) (up : Answers redis) where
  judge-quota : (used : ℕ) → judge redis limit (suc used) ≡ (quota limit used).0
  unfolding quota
  judge-quota used = ground arith

  after_incr-quota :
      (key : Text) (s s' : S) (n : ℕ)
      → redis.incr key s ≡ (ok n, s')
      → (after_incr redis limit key (ok n, s')).0 ≡ (quota limit (value s key)).0
  after_incr-quota key s s' n h = elim (Bool-cases (n == 1)) [
    | inr e ↦ rw e (verdict ∙ judge-quota (value s key))
    | inl e ↦ rw e (
        judged (redis.expire key window_seconds s') (up.expires key window_seconds s')
        ∙ (verdict ∙ judge-quota (value s key)))
  ]
    where
      verdict : judge redis limit n ≡ judge redis limit (suc (value s key))
      verdict = ap (judge redis limit) (laws.counted key s s' n h).0

      judged :
          (r : Result (Unit {0}) × S)
          → (z : _) × (r ≡ (ok tt, z))
          → (after_expire redis limit n r).0 ≡ judge redis limit n
      judged (ok u, z) k = refl
      judged (raised x, z) (y, k) = absurd (ground (arith, k))

  counted-quota :
      (k : Text) (s : S) (r : Result ℕ × S)
      → redis.incr k s ≡ r
      → (n : ℕ) × (s' : S) × (r ≡ (ok n, s'))
      → ((after_incr redis limit k r).0 ≡ (quota limit (value s k)).0)
        × (value (after_incr redis limit k r).1 k ≡ (quota limit (value s k)).1)
  unfolding quota
  counted-quota k s (raised x, s') h (m, z, e) = absurd (ground (arith, e))
  counted-quota k s (ok n, s') h e =
      let (next, now) = laws.counted k s s' n h in
      (
        after_incr-quota k s s' n h,
        after_incr-kept redis limit value laws k k (ok n, s') ∙ (now ∙ next),
      )

  -- Where Redis answers every command, the rate limiter is the quota of the key: the verdict and the next
  -- count are those of the specification.
  pub enforce-quota :
      (slug ip : Text) (s : S)
      → ((enforce_public_intake_rate_limit redis limit slug ip s).0
          ≡ (quota limit (value s (key_of slug ip))).0)
        × (value (enforce_public_intake_rate_limit redis limit slug ip s).1 (key_of slug ip)
            ≡ (quota limit (value s (key_of slug ip))).1)
  unfolding enforce_public_intake_rate_limit quota
  enforce-quota slug ip s =
      let k = key_of slug ip in
      rw up.is_connected (counted-quota k s (redis.incr k s) refl (up.counts k s))
