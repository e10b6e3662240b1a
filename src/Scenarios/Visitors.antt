-- ===== src/Scenarios/Visitors.antt =====
-- Visitors of the public intake, with a Redis that keeps the keys that it has counted.
use realesatecrm.Base.{
  ℕ, suc, ◌+◌, ◌-◌, ◌≤◌, ◌≡◌, refl, Text, true, List, [], ◌∷◌, arith, codes, same_text,
  same_text_refl, if◌then◌else◌,
}
use realesatecrm.Core.Errors.{ok}
use realesatecrm.Intake.RateLimit.{Redis, enforce_public_intake_rate_limit, key_of}
use realesatecrm.Intake.Quota.{
  Counts, Answers, Client, admissions, admissions-bounded, quota, enforce-quota,
}

abbrev occurrences : List Text → Text → ℕ
occurrences [] k = 0
occurrences (l ∷ s) k = (if same_text l k then 1 else 0) + occurrences s k

abbrev counted : Redis (List Text)
counted = record {
  connected = true;
  incr = λ k s. (ok (suc (occurrences s k)), k ∷ s);
  expire = λ k n s. (ok tt, s);
}

counted-once : (k : Text) (s : List Text) → occurrences (k ∷ s) k ≡ suc (occurrences s k)
counted-once k s = rw (same_text_refl k) (omega arith)

counted-Counts : Counts counted occurrences
counted-Counts = record {
  counted = λ k s s' n h. ground (arith, h, counted-once k s);
  not_down = λ k l s. omega arith;
  unchanged = λ k l n s h. refl;
}

counted-Answers : Answers counted
counted-Answers = record {
  is_connected = refl;
  counts = λ k s. (suc (occurrences s k), k ∷ s, refl);
  expires = λ k n s. (s, refl);
}

abbrev visitor : Client
visitor = (codes "acme", codes "10.0.0.7")

abbrev visitors : List Client
visitors = visitor ∷ visitor ∷ (codes "acme", codes "10.0.0.8") ∷ visitor ∷ []

abbrev visitor_key : Text
visitor_key = key_of visitor.0 visitor.1

admissions-bounded_example :
    admissions counted 2 visitor_key visitors [] ≤ 2 - occurrences [] visitor_key
admissions-bounded_example =
    admissions-bounded counted 2 occurrences counted-Counts visitor_key visitors []

enforce-quota_example :
    ((enforce_public_intake_rate_limit counted 2 visitor.0 visitor.1 []).0 ≡ (quota 2 0).0)
    × (occurrences (enforce_public_intake_rate_limit counted 2 visitor.0 visitor.1 []).1 visitor_key
        ≡ (quota 2 0).1)
enforce-quota_example =
    enforce-quota counted 2 occurrences counted-Counts counted-Answers visitor.0 visitor.1 []

-- Two of the visitor's three requests are admitted.
two_admitted : admissions counted 2 visitor_key visitors [] ≡ 2
unfolding admissions enforce_public_intake_rate_limit
two_admitted = refl
