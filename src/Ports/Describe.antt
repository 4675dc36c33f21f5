-- ===== src/Ports/Describe.antt =====
-- `describePorts` of src/services/listener-ports.ts: the runs that an error message names.
use open_live.Prelude.{
  ℕ, zero, suc, ◌+◌, ◌-◌, ◌≤◌, List, [], ◌∷◌, ◌++◌, if◌then◌else◌, nat_beq, ◌≡◌, ◌∙◌, ap, arith,
  append_assoc, append-nil, sym, Bool-cases, inl, inr,
}
use open_live.Ports.Listener.{sorted}

-- One round of the loop; `last` and the runs before it, the latest first.
unfoldable pub add_to_runs : ℕ → List (ℕ × ℕ) → List (ℕ × ℕ)
add_to_runs p [] = (p, p) ∷ []
add_to_runs p ((from, to) ∷ runs) =
    if nat_beq (to + 1) p then (from, p) ∷ runs else (p, p) ∷ (from, to) ∷ runs

unfoldable pub runs_of : List ℕ → List (ℕ × ℕ) → List (ℕ × ℕ)
unfolding add_to_runs
runs_of [] runs = runs
runs_of (p ∷ ps) runs = runs_of ps (add_to_runs p runs)

-- The runs before their join to a text, the latest first.
unfoldable pub described_ports : List ℕ → List (ℕ × ℕ)
unfolding runs_of sorted
described_ports ports = runs_of (sorted ports) []

-- The ports that a run stands for, and those of a message.
pub count_up : ℕ → ℕ → List ℕ
count_up zero from = []
count_up (suc n) from = from ∷ count_up n (from + 1)

pub expand : List (ℕ × ℕ) → List ℕ
expand [] = []
expand ((from, to) ∷ runs) = expand runs ++ count_up (to + 1 - from) from

count_up-snoc : (n from : ℕ) → count_up (suc n) from ≡ count_up n from ++ (from + n) ∷ []
unfolding count_up
count_up-snoc zero from = let same : from ≡ from + 0 = omega arith in ap (λ m. m ∷ []) same
count_up-snoc (suc n) from =
    let same : (from + 1) + n ≡ from + suc n = omega arith in
    ap (λ l. from ∷ l) (count_up-snoc n (from + 1) ∙ ap (λ m. count_up n (from + 1) ++ m ∷ []) same)

one_port : (p : ℕ) → count_up (p + 1 - p) p ≡ p ∷ []
unfolding count_up
one_port p = let one : p + 1 - p ≡ 1 = omega arith in ap (λ n. count_up n p) one

longer :
    (from to p : ℕ)
    → from ≤ to
    → to + 1 ≡ p
    → count_up (p + 1 - from) from ≡ count_up (to + 1 - from) from ++ p ∷ []
longer from to p le e =
    let n = to + 1 - from in
    let size : p + 1 - from ≡ suc n = omega (arith, le, e) in
    let end : from + n ≡ p = omega (arith, le, e) in
    ap (λ m. count_up m from) size ∙ count_up-snoc n from ∙ ap (λ m. count_up n from ++ m ∷ []) end

-- No run ends before it starts.
IsRuns : List (ℕ × ℕ) → Type 0
IsRuns [] = Unit {0}
IsRuns ((from, to) ∷ runs) = (from ≤ to) × IsRuns runs

add_to_runs-IsRuns : (p : ℕ) (runs : List (ℕ × ℕ)) → IsRuns runs → IsRuns (add_to_runs p runs)
unfolding add_to_runs IsRuns
add_to_runs-IsRuns p [] w = (omega arith, tt)
add_to_runs-IsRuns p ((from, to) ∷ runs) (le, w) = ground (arith, le, w)

expand-add_to_runs :
    (p : ℕ) (runs : List (ℕ × ℕ))
    → IsRuns runs
    → expand (add_to_runs p runs) ≡ expand runs ++ p ∷ []
unfolding add_to_runs expand count_up IsRuns
expand-add_to_runs p [] w = one_port p
expand-add_to_runs p ((from, to) ∷ runs) (le, w) = elim (Bool-cases (nat_beq (to + 1) p)) [
  | inl e ↦ rw e (
      ap (λ l. expand runs ++ l) (longer from to p le (ground (arith, e)))
      ∙ sym (append_assoc (expand runs) (count_up (to + 1 - from) from) (p ∷ [])))
  | inr e ↦ rw e (ap (λ l. (expand runs ++ count_up (to + 1 - from) from) ++ l) (one_port p))
]

expand-runs_of :
    (ps : List ℕ) (runs : List (ℕ × ℕ)) → IsRuns runs → expand (runs_of ps runs) ≡ expand runs ++ ps
unfolding runs_of
expand-runs_of [] runs w = sym (append-nil (expand runs))
expand-runs_of (p ∷ ps) runs w =
    expand-runs_of ps (add_to_runs p runs) (add_to_runs-IsRuns p runs w)
    ∙ ap (λ l. l ++ ps) (expand-add_to_runs p runs w)
    ∙ append_assoc (expand runs) (p ∷ []) ps

-- The runs of an error message name exactly the ports of the set, in rising order.
pub expand-described_ports : (ports : List ℕ) → expand (described_ports ports) ≡ sorted ports
unfolding described_ports expand IsRuns
expand-described_ports ports = expand-runs_of (sorted ports) [] tt
