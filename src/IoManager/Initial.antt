-- ===== src/IoManager/Initial.antt =====
-- The state that the constructor leaves.
use fiber_async.Prelude.{
  ℕ, ◌≡◌, refl, sym, subst, ap, ◌∙◌, inl, inr, none, some, [], arith, get_elem?, Option-cases,
}
use fiber_async.IoManager.{FdContext, new_context, context_resize, new_io_manager}
use fiber_async.IoManager.Interest.{Epoll}
use fiber_async.IoManager.Contexts.{
  length-context_resize, get_elem?-context_resize, total-context_resize,
}
use fiber_async.IoManager.Invariant.{IsTidy, IsConsistent, entry_of, mask_of}

new_context-IsTidy : (k : ℕ) → IsTidy k (new_context k)
new_context-IsTidy k = record {
  index = refl;
  read_blank = λ h. refl;
  write_blank = λ h. refl;
  read_ready = λ h. cc;
  write_ready = λ h. cc;
}

pub new_slot :
    (k : ℕ) {c : FdContext} → get_elem? (context_resize 0 32 []) k ≡ some c → c ≡ new_context k
new_slot k h = elim (get_elem?-context_resize 0 32 [] k h) [
  | inl old ↦ cc
  | inr (past, fresh) ↦ fresh ∙ ap new_context (omega arith)
]

new_entry : (k : ℕ) → entry_of (get_elem? (context_resize 0 32 []) k) ≡ none
new_entry k = elim (Option-cases (get_elem? (context_resize 0 32 []) k)) [
  | inl e ↦ ap entry_of e
  | inr (c, e) ↦ ap entry_of e ∙ ap (λ d. entry_of (some d)) (new_slot k e)
]

-- A new manager waits for nothing, and its table, count and epoll agree, if epoll has no entry yet.
pub new_io_manager-IsConsistent :
    (e : Epoll) (k : e.Kernel)
    → ((i : ℕ) → e.interest k i ≡ none)
    → IsConsistent e (new_io_manager e k)
unfolding new_io_manager
new_io_manager-IsConsistent e k empty = record {
  tidy = λ i c h. subst (IsTidy i) (sym (new_slot i h)) (new_context-IsTidy i);
  entry = λ i. ap mask_of (empty i) ∙ sym (new_entry i);
  count = omega (arith, total-context_resize 0 32 [] (omega arith));
  large = omega (arith, length-context_resize 0 32 []);
}
