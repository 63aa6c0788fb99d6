-- ===== src/ThreadCpu/Tied.antt =====
-- src/thread_cpu.rs: the identity of a thread beside what the passes have seen of its owner.
use symphony.Prelude.{
  ltb, Bool-cases, Option-cases, ℕ, ◌≡◌, refl, sym, ap, ◌∙◌, subst, ◌≢◌, ◌⊎◌, inl, inr, true, false,
  Option, none, some, List, [], ◌∷◌, arith,
}
use symphony.ThreadCpu.{
  owner_recheck_ns, later, ProcFs, Identity, unresolved, literal, discovered, SampleState,
  ThreadCpu, resolve, reschedule, adopt, apply_discovery,
}
use symphony.ThreadCpu.Sampling.{take_discovery, eq_inode, recheck}
use symphony.ThreadCpu.History.{Seen, takes, looks_at}
use symphony.ThreadCpu.Owner.{IsThread, resolve-cases, adopt-fields}

-- Every look has read the same inode.
abbrev pub AreAll : Option ℕ → List (Option ℕ) → Type 0
AreAll inode [] = Unit {0}
AreAll inode (look ∷ looks) = (look ≡ inode) × AreAll inode looks

eq_inode-eq : (a b : Option ℕ) → eq_inode a b ≡ true → a ≡ b
eq_inode-eq none none h = refl
eq_inode-eq none (some b) h = cc
eq_inode-eq (some a) none h = cc
eq_inode-eq (some a) (some b) h = ground arith

-- The thread that is configured, in the owner that was found.
pub data IsTied (pid tid : ℕ) (seen : Seen) (identity : Identity) : Type 0 where
  by_name : identity ≡ literal → IsTied pid tid seen identity
  by_owner :
      (host start : ℕ)
      → identity ≡ discovered seen.owner host start
      → IsThread seen.proc pid tid seen.owner host start
      → IsTied pid tid seen identity

pub record IsKnown (pid tid : ℕ) (seen : Option Seen) (s : SampleState) : Type 0 where
  pub latest : Seen
  pub is_latest : seen ≡ some latest
  pub inode : s.inode ≡ latest.inode
  pub due : s.next_recheck_ns ≡ latest.due
  pub looked : s.owner_changed ≡ false → AreAll latest.inode latest.looks
  pub tied : IsTied pid tid latest s.identity

abbrev pub IsTracked : ℕ → ℕ → Option Seen → SampleState → Type 0
IsTracked pid tid seen s = (s.identity ≡ unresolved) ⊎ IsKnown pid tid seen s

-- The states agree on the owner.
abbrev pub IsSameOwner : SampleState → SampleState → Type 0
IsSameOwner r s =
    (r.identity ≡ s.identity)
    × (r.inode ≡ s.inode)
    × (r.next_recheck_ns ≡ s.next_recheck_ns)
    × (r.owner_changed ≡ s.owner_changed)

pub IsTracked-same :
    (pid tid : ℕ) (seen : Option Seen) (r s : SampleState)
    → IsSameOwner r s
    → IsTracked pid tid seen s
    → IsTracked pid tid seen r
IsTracked-same pid tid seen r s f (inl e) = inl (f.0 ∙ e)
IsTracked-same pid tid seen r s f (inr k) = inr (record {
  latest = k.latest;
  is_latest = k.is_latest;
  inode = f.1 ∙ k.inode;
  due = f.2 ∙ k.due;
  looked = λ h. k.looked (sym (f.3) ∙ h);
  tied = subst (IsTied pid tid k.latest) (sym (f.0)) k.tied;
})

module _ (proc : ProcFs) (cpu : ThreadCpu) (now : ℕ) where
  reschedule-known :
      (inode : Option ℕ) (i : Identity) (s : SampleState)
      → i ≢ unresolved
      → let r = reschedule now inode i s in
        (r.inode ≡ inode)
        × (r.next_recheck_ns ≡ later now owner_recheck_ns)
        × (r.owner_changed ≡ false)
  unfolding reschedule
  reschedule-known inode unresolved s other = absurd (other refl)
  reschedule-known inode literal s other = (refl, refl, refl)
  reschedule-known inode (discovered p t q) s other = (refl, refl, refl)

  -- What a discovery leaves that has found the owner.
  found : ℕ → Option ℕ → Seen
  found owner inode = record {
    owner = owner;
    inode = inode;
    proc = proc;
    due = later now owner_recheck_ns;
    looks = [];
  }

  resolved-IsTracked :
      (owner : ℕ) (inode : Option ℕ) (i : Identity) (s : SampleState)
      → i ≢ unresolved
      → IsTied cpu.pid cpu.tid (found owner inode) i
      → IsTracked cpu.pid cpu.tid (some (found owner inode)) (adopt i (reschedule now inode i s))
  unfolding found
  resolved-IsTracked owner inode i s other tied =
      let r = reschedule now inode i s in
      let f = adopt-fields i r in
      let g = reschedule-known inode i s other in
      inr (record {
        latest = found owner inode;
        is_latest = refl;
        inode = f.1 ∙ g.0;
        due = f.2 ∙ g.1;
        looked = λ _. tt;
        tied = subst (IsTied cpu.pid cpu.tid (found owner inode)) (sym (f.0)) tied;
      })

  adopted-IsTracked :
      (owner : ℕ) (inode : Option ℕ) (s : SampleState)
      → let i = resolve proc cpu.pid cpu.tid owner in
        IsTracked cpu.pid cpu.tid (some (found owner inode)) (adopt i (reschedule now inode i s))
  unfolding found
  adopted-IsTracked owner inode s =
      let i = resolve proc cpu.pid cpu.tid owner in
      elim (resolve-cases proc cpu.pid cpu.tid owner) [
        | inl e ↦ inl ((adopt-fields i (reschedule now inode i s)).0 ∙ e)
        | inr (inl e) ↦
            resolved-IsTracked owner inode i s (λ h. absurd (other_than e h)) (by_name e)
        | inr (inr (host, start, e, thread)) ↦
            resolved-IsTracked owner inode i s (λ h. absurd (one_of e h))
              (by_owner host start e thread)
      ]
    where
      other_than : {i : Identity} → i ≡ literal → i ≡ unresolved → ⊥
      other_than e h = cc

      one_of : {i : Identity} {p t s : ℕ} → i ≡ discovered p t s → i ≡ unresolved → ⊥
      one_of e h = cc

  pub take_discovery-IsTracked :
      (seen : Option Seen) (s : SampleState)
      → IsTracked cpu.pid cpu.tid seen s
      → IsTracked cpu.pid cpu.tid (takes proc now s.finished seen) (take_discovery proc cpu now s)
  unfolding take_discovery apply_discovery found
  take_discovery-IsTracked seen s k = elim (Option-cases s.finished) [
    | inl e ↦ rw (e, take_discovery) k
    | inr (d, e) ↦ elim (Option-cases d.owner) [
      | inl n ↦
          rw (e, take_discovery, n, apply_discovery)
            (IsTracked-same cpu.pid cpu.tid seen _ s (refl, refl, refl, refl) k)
      | inr (owner, o) ↦
          rw (e, take_discovery, o, apply_discovery)
            (adopted-IsTracked owner d.inode (record s { finished = none }))
    ]
  ]

  looks_at-early :
      (inode : Option ℕ) (x : Seen) → ltb now x.due ≡ true → looks_at inode now (some x) ≡ some x
  looks_at-early inode x e = ground arith

  looks_at-due :
      (inode : Option ℕ) (x : Seen)
      → ltb now x.due ≡ false
      → looks_at inode now (some x)
        ≡ some (record x { due = later now owner_recheck_ns; looks = inode ∷ x.looks })
  looks_at-due inode x e = ground arith

  IsTied-looked :
      (x : Seen) (inode : Option ℕ) {i : Identity}
      → IsTied cpu.pid cpu.tid x i
      → IsTied cpu.pid cpu.tid
          (record x { due = later now owner_recheck_ns; looks = inode ∷ x.looks })
          i
  IsTied-looked x inode (by_name e) = by_name e
  IsTied-looked x inode (by_owner host start e thread) = by_owner host start e thread

  pub recheck-IsTracked :
      (seen : Option Seen) (s : SampleState)
      → IsTracked cpu.pid cpu.tid seen s
      → IsTracked cpu.pid cpu.tid
          (looks_at (proc.socket_inode cpu.path) now seen)
          (recheck proc cpu now s)
  unfolding recheck
  recheck-IsTracked seen s (inl e) = inl (elim (Bool-cases (ltb now s.next_recheck_ns)) [
    | inl y ↦ rw (y, recheck) e
    | inr n ↦ elim (Bool-cases (eq_inode (proc.socket_inode cpu.path) s.inode)) [
      | inl q ↦ rw (n, q, recheck) e
      | inr q ↦ rw (n, q, recheck) e
    ]
  ])
  recheck-IsTracked seen s (inr k) =
      let x = k.latest in
      let inode = proc.socket_inode cpu.path in
      let looked = record x { due = later now owner_recheck_ns; looks = inode ∷ x.looks } in
      let at_latest = ap (looks_at inode now) k.is_latest in
      elim (Bool-cases (ltb now s.next_recheck_ns)) [
        | inl y ↦
            let same : looks_at inode now (some x) ≡ some x =
              looks_at-early inode x (ap (ltb now) (sym k.due) ∙ y) in
            rw (y, recheck)
              (inr (record {
                latest = x;
                is_latest = at_latest ∙ same;
                inode = k.inode;
                due = k.due;
                looked = k.looked;
                tied = k.tied;
              }))
        | inr n ↦
            let same : looks_at inode now (some x) ≡ some looked =
              looks_at-due inode x (ap (ltb now) (sym k.due) ∙ n) in
            elim (Bool-cases (eq_inode inode s.inode)) [
              | inl q ↦
                  rw (n, q, recheck)
                    (inr (record {
                      latest = looked;
                      is_latest = at_latest ∙ same;
                      inode = k.inode;
                      due = refl;
                      looked = λ h. (eq_inode-eq inode s.inode q ∙ k.inode, k.looked h);
                      tied = IsTied-looked x inode k.tied;
                    }))
              | inr q ↦
                  rw (n, q, recheck)
                    (inr (record {
                      latest = looked;
                      is_latest = at_latest ∙ same;
                      inode = k.inode;
                      due = refl;
                      looked = λ h. absurd (true≢false h);
                      tied = IsTied-looked x inode k.tied;
                    }))
            ]
      ]
    where
      true≢false : true ≡ false → ⊥
      true≢false h = cc
