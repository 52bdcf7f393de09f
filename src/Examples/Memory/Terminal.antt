-- ===== src/Examples/Memory/Terminal.antt =====
-- A terminal of the world in memory, on which every call succeeds.
use namespace_cost_governor.Base.{
  String, List, [], ◌∷◌, ◌++◌, ◌≡◌, refl, sym, ap, ◌∙◌, ok, Result, Bool-cases, inl, inr,
  ok-injective,
}
use namespace_cost_governor.Cli.Console.{Console}
use namespace_cost_governor.Cli.Console.Apart.{IsApart}
use namespace_cost_governor.Cli.Console.Shown.{IsTerminal, append_empty, append_assoc}
use namespace_cost_governor.Examples.Memory.{World, memory, call, fails}

abbrev pub terminal : Console World
terminal = record {
  Config = Unit;
  in_cluster_config = λ w. (ok tt, w);
  kubeconfig = λ w. (ok tt, w);
  new_client = λ c. ok tt;
  error_text = λ e. "error";
  print = λ s w. record w { output = w.output ++ (s ∷ []) };
  Writer = List String;
  new_writer = [];
  fprint = λ t s w. (ok (t ++ (s ∷ [])), w);
  flush = λ t w. (ok tt, record w { output = w.output ++ t });
}

abbrev pub terminal-IsTerminal : IsTerminal terminal
terminal-IsTerminal = record {
  shown = λ w. w.output;
  with_pending = λ t w. w.output ++ t;
  shown-print = λ s w. refl;
  pending-new_writer = λ w. append_empty w.output;
  pending-fprint = λ t t1 s w fine.
      ap (λ u. w.output ++ u) (sym (ok-injective fine)) ∙ sym (append_assoc w.output t (s ∷ []));
  shown-flush = λ t w fine. refl;
  shown-in_cluster_config = λ w. refl;
  shown-kubeconfig = λ w. refl;
}

pub terminal-IsApart : IsApart memory terminal
terminal-IsApart = record {
  say-reads = λ s w. refl;
  in_cluster_config-reads = λ w. refl;
  kubeconfig-reads = λ w. refl;
}

-- The calls of the cluster show nothing.
pub output-call : {A : Type 0} (w : World) (r : Result A) → (call w r w).1.output ≡ w.output
output-call w r = elim (Bool-cases (fails w.faults)) [
  | inl fault ↦ rw fault refl
  | inr fine ↦ rw fine refl
]
