-- ===== src/Runners/Launch/Names.antt =====
-- The names of the jobs of Kubernetes.
use Prim.Native.String.append
use Prim.Native.String.{slice}
use text.Mathlib.TextPositions.{slice-append_left}
use text.Mathlib.TextLemmas.{append_assoc as str_append_assoc}
use backend_sandbox_service.Prelude.{
  ℕ, suc, ◌≡◌, sym, ap, ◌∙◌, true, String, str, str_append, str_eq, eq_iff, eq_of_str-eq,
  Bool-cases, inl, inr, arith,
}
use backend_sandbox_service.Runners.Launch.{AnsibleRun, job_name, text_length, text_from}

-- What follows a text that stands first.
text_from-length :
    (first rest : String) → text_from (text_length first) (str_append first rest) ≡ rest
unfolding text_length text_from
text_from-length String.[] rest = append.nil rest
text_from-length (String.◌∷◌ c first) rest =
    ap (text_from (suc (text_length first))) (append.cons c first rest)
    ∙ text_from-length first rest

same-first :
    (first : String) (m n : ℕ) → str_append first (str m) ≡ str_append first (str n) → m ≡ n
same-first first m n h = eq_of_str-eq m n (
    sym (text_from-length first (str m))
    ∙ ap (text_from (text_length first)) h
    ∙ text_from-length first (str n))

-- The name of a cleanup is not that of an allocation.
cleanup-allocation :
    (x y : String) → str_append "ansible-cleanup-" x ≡ str_append "ansible-allocation-" y → ⊥
cleanup-allocation x y h =
    let begins : ◌≡◌ {A = String} "ansible-c" "ansible-a" =
      sym (slice-append_left "ansible-c" (str_append "leanup-" x))
      ∙ ap (λ s. slice s 0 9)
          (sym (str_append_assoc "ansible-c" "leanup-" x)
            ∙ h
            ∙ str_append_assoc "ansible-a" "llocation-" y)
      ∙ slice-append_left "ansible-a" (str_append "llocation-" y) in
    let same : str_eq "ansible-c" "ansible-a" ≡ true = (eq_iff "ansible-c" "ansible-a").1 begins in
    cc

-- The jobs of two stages, and those of an allocation and of a cleanup, never have the same name.
pub job_name-eq :
    (a b : AnsibleRun)
    → job_name a ≡ job_name b
    → (a.stage_id ≡ b.stage_id) × (a.cleanup ≡ b.cleanup)
unfolding job_name
job_name-eq a b h = elim (Bool-cases a.cleanup) [
  | inl cleans ↦ elim (Bool-cases b.cleanup) [
    | inl too ↦ (
      same-first "ansible-cleanup-" a.stage_id b.stage_id (ground (arith, cleans, too)),
      ground (arith, cleans, too),
    )
    | inr allocates ↦
        absurd
          (cleanup-allocation (str a.stage_id) (str b.stage_id) (ground (arith, cleans, allocates)))
  ]
  | inr allocates ↦ elim (Bool-cases b.cleanup) [
    | inl cleans ↦
        absurd
          (cleanup-allocation (str b.stage_id) (str a.stage_id) (ground (arith, cleans, allocates)))
    | inr too ↦ (
      same-first "ansible-allocation-" a.stage_id b.stage_id (ground (arith, allocates, too)),
      ground (arith, allocates, too),
    )
  ]
]
