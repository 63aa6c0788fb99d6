-- ===== src/ThreadCpu/Owner.antt =====
-- src/thread_cpu.rs: the thread that is configured, in the process that owns the socket.
use symphony.Prelude.{
  Result-cases, ok, err, ◌==◌, Bool-cases, Option-cases, ℕ, ◌≡◌, refl, sym, ap, ◌∙◌, ◌⊎◌, inl, inr,
  true, false, some, List, [], ◌∷◌, arith,
}
use symphony.ThreadCpu.{
  TaskStat, ProcessView, ProcFs, Identity, unresolved, literal, discovered, find_thread, host_tid,
  resolve, eq_identity, adopt, SampleState,
}

abbrev pub IsListed : ℕ → ℕ → List (ℕ × ℕ) → Type 0
IsListed inner host [] = ⊥
IsListed inner host ((k, t) ∷ threads) = ((k ≡ inner) × (t ≡ host)) ⊎ IsListed inner host threads

-- The host's name of the thread `tid` of the process `pid`, both as they are configured.
pub data IsTid (pid tid owner : ℕ) (view : ProcessView) (host : ℕ) : Type 0 where
  not_nested :
      view.innermost_pid ≡ pid → view.nested ≡ false → host ≡ tid → IsTid pid tid owner view host
  nested : view.innermost_pid ≡ pid → IsListed tid host view.threads → IsTid pid tid owner view host
  by_host_pid : owner ≡ pid → host ≡ tid → IsTid pid tid owner view host

-- It is a thread of the owner, which started at `start`.
pub record IsThread (proc : ProcFs) (pid tid owner host start : ℕ) : Type 0 where
  pub view : ProcessView
  pub viewed : proc.process_view owner ≡ some view
  pub named : IsTid pid tid owner view host
  pub stat : TaskStat
  pub running : proc.task_stat owner host ≡ some stat
  pub started : stat.start ≡ start

find_thread-IsListed :
    (inner host : ℕ) (threads : List (ℕ × ℕ))
    → find_thread inner threads ≡ some host
    → IsListed inner host threads
unfolding find_thread
find_thread-IsListed inner host [] h = absurd (ground arith)
find_thread-IsListed inner host ((k, t) ∷ threads) h = elim (Bool-cases (k == inner)) [
  | inl e ↦ inl (ground arith, ground arith)
  | inr n ↦ inr (find_thread-IsListed inner host threads (rw n at h))
]

host_tid-IsTid :
    (pid tid owner : ℕ) (view : ProcessView) (host : ℕ)
    → host_tid pid tid owner view ≡ ok host
    → IsTid pid tid owner view host
unfolding host_tid
host_tid-IsTid pid tid owner view host h = elim (Bool-cases (view.innermost_pid == pid)) [
  | inl e ↦ elim (Bool-cases view.nested) [
    | inr n ↦ not_nested (ground arith) n (ground arith)
    | inl y ↦ elim (Option-cases (find_thread tid view.threads)) [
      | inl k ↦ absurd (ground arith)
      | inr (t, k) ↦
          let same : t ≡ host = ground arith in
          nested (ground arith)
            (find_thread-IsListed tid host view.threads (k ∙ ap (λ x. some x) same))
    ]
  ]
  | inr e ↦ elim (Bool-cases (owner == pid)) [
    | inl y ↦ by_host_pid (ground arith) (ground arith)
    | inr n ↦ absurd (ground arith)
  ]
]

host_tid-err :
    (pid tid owner : ℕ) (view : ProcessView) (i : Identity)
    → host_tid pid tid owner view ≡ err i
    → (i ≡ unresolved) ⊎ (i ≡ literal)
unfolding host_tid
host_tid-err pid tid owner view i h = elim (Bool-cases (view.innermost_pid == pid)) [
  | inl e ↦ inl (ground (arith, Option-cases (find_thread tid view.threads)))
  | inr e ↦ inr (ground arith)
]

pub resolve-cases :
    (proc : ProcFs) (pid tid owner : ℕ)
    → (resolve proc pid tid owner ≡ unresolved)
      ⊎ ((resolve proc pid tid owner ≡ literal)
          ⊎ ((host : ℕ) × (start : ℕ) × (resolve proc pid tid owner ≡ discovered owner host start)
              × IsThread proc pid tid owner host start))
unfolding resolve
resolve-cases proc pid tid owner = elim (Option-cases (proc.process_view owner)) [
  | inl e ↦ inl (ground arith)
  | inr (view, e) ↦ elim (Result-cases (host_tid pid tid owner view)) [
    | inr (i, h) ↦ elim (host_tid-err pid tid owner view i h) [
      | inl k ↦ inl (ground arith)
      | inr k ↦ inr (inl (ground arith))
    ]
    | inl (host, h) ↦ elim (Option-cases (proc.task_stat owner host)) [
      | inl k ↦ inl (ground arith)
      | inr (stat, k) ↦ inr (
          inr (
            host,
            stat.start,
            ground arith,
            record {
              view = view;
              viewed = e;
              named = host_tid-IsTid pid tid owner view host h;
              stat = stat;
              running = k;
              started = refl;
            },
          ))
    ]
  ]
]

eq_identity-eq : (i j : Identity) → eq_identity i j ≡ true → i ≡ j
unfolding eq_identity
eq_identity-eq unresolved unresolved h = refl
eq_identity-eq unresolved literal h = cc
eq_identity-eq unresolved (discovered p t s) h = cc
eq_identity-eq literal unresolved h = cc
eq_identity-eq literal literal h = refl
eq_identity-eq literal (discovered p t s) h = cc
eq_identity-eq (discovered p t s) unresolved h = cc
eq_identity-eq (discovered p t s) literal h = cc
eq_identity-eq (discovered p t s) (discovered q u r) h = ground arith

-- What an identity that is taken on leaves as it was.
pub adopt-fields :
    (i : Identity) (s : SampleState)
    → let r = adopt i s in
      (r.identity ≡ i)
      × (r.inode ≡ s.inode)
      × (r.next_recheck_ns ≡ s.next_recheck_ns)
      × (r.owner_changed ≡ s.owner_changed)
unfolding adopt
adopt-fields i s = elim (Bool-cases (eq_identity i s.identity)) [
  | inl y ↦ rw (y, adopt) (sym (eq_identity-eq i s.identity y), refl, refl, refl)
  | inr n ↦ rw (n, adopt) (refl, refl, refl, refl)
]
