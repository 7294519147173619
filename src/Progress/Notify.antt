-- ===== src/Progress/Notify.antt =====
-- What one reporter sends: progress that never goes down, whatever is emitted through it. A request may use
-- two reporters, of which each starts at 0.
use ida_pilot.Common.{
  string_key, ℕ, ◌≤◌, ◌≡◌, refl, sym, ap, ◌∙◌, subst, suc, true, List, [], ◌∷◌, Option, none, some,
  arith, ltb, length, if◌then◌else◌,
}
use ida_pilot.Progress.{SessionProgress, Reporter, Notification, emit}

-- The progress of the notifications that a series of calls of `Emit` sends.
unfoldable pub sent_with {ℓ} :
    {A : Type ℓ} → Option Notification → (Notification → A) → List A → List A
sent_with none f rest = rest
sent_with (some n) f rest = f n ∷ rest

unfoldable pub emit_all : Reporter → List SessionProgress → List ℕ
unfolding sent_with
emit_all r [] = []
emit_all r (p ∷ ps) = sent_with (emit r p).sent (λ n. n.progress) (emit_all (emit r p).reporter ps)

-- A list that starts at a number or above it and never goes down.
abbrev pub Rising : ℕ → List ℕ → Type 0
Rising low [] = Unit
Rising low (x ∷ xs) = (low ≤ x) × Rising x xs

emit-sent :
    (r : Reporter) (p : SessionProgress)
    → r.listens ≡ true
    → (n : Notification) × ((emit r p).sent ≡ some n)
      × (n.progress ≡ (emit r p).reporter.last)
      × (r.last ≤ n.progress)
unfolding emit
emit-sent r p on =
    let n : Notification = record {
      progress = if ltb p.progress r.last then r.last else p.progress;
      message = p.message;
      total = if ltb 0 p.total then some p.total else none;
    } in
    (n, rw on refl, rw on refl, ground arith)

listens-emit : (r : Reporter) (p : SessionProgress) → (emit r p).reporter.listens ≡ r.listens
unfolding emit
listens-emit r p = refl

-- One reporter whose client listens sends one notification for each call of its `Emit`, and their progress
-- never goes down, nor below what the reporter last sent, whatever progress the calls report.
pub emit_all-Rising :
    (r : Reporter) (ps : List SessionProgress)
    → r.listens ≡ true
    → Rising r.last (emit_all r ps) × (length (emit_all r ps) ≡ length ps)
unfolding emit_all
emit_all-Rising r [] on = (tt, refl)
emit_all-Rising r (p ∷ ps) on =
    let (n, e, last, up) = emit-sent r p on in
    let ih = emit_all-Rising (emit r p).reporter ps (listens-emit r p ∙ on) in
    rw (e, sent_with)
      ((up, subst (λ k. Rising k (emit_all (emit r p).reporter ps)) (sym last) ih.0), ap suc ih.1)
