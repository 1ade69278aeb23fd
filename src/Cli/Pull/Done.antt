-- ===== src/Cli/Pull/Done.antt =====
-- What a successful `zboot pull` leaves (cli/src/cmd/pull.rs).
use zboot.Base.{
  ℕ, ◌≡◌, refl, ap, sym, ◌∙◌, Bool, false, not, Option, none, some, ◌++◌, Str, is_some, ok, ok_or,
  str_beq, if◌then◌else◌,
}
use zboot.Text.{codes, contains_char, first_part}
use zboot.Core.Replication.{parse_dataset}
use zboot.Cli.Io.{
  continue_cases, lift, lift-eq-ok, guard, done, pure, attempt, not_canonical, not_found,
  bad_target, exists,
}
use zboot.Cli.After.{Keeps, Keeps-bind, Keeps-attempt, Keeps-if}
use zboot.Cli.Sub.{Runner}
use zboot.Cli.BeArg.{discover_booted_pool}
use zboot.Cli.ZfsOps.{
  dataset_exists, require_role_root, set_property_tolerant, set_readonly_tolerant,
  read_pair_pointer, write_pair_pointer, clear_pair_pointer, ensure_root_container,
}
use zboot.Cli.ZfsOps.Snapshots.{set_be_contract}
use zboot.Cli.ZfsOps.Store.{IsStore, read_pair_pointer-Quiet}
use zboot.Cli.ZfsOps.Wire.{Wire}
use zboot.Cli.Pair.Clearing.{IsClearing, is_pair_property}
use zboot.Cli.Replicate.{choose_anchor, clear_readonly, prune_both, exists_or_false}
use zboot.Cli.Replicate.Contract.{IsPruning, Received, contract_done, prune_both-Keeps}
use zboot.Cli.Replicate.Pointers.{write-Keeps, clear-Keeps, marked-Keeps}
use zboot.Cli.Pull.{
  Reception, receive_checks, receive_transfer, receive_work, receive_into, require_snapshot,
  pair_initial, pull_initial,
}

module _ {S : Type 0} (r : Runner S) (w : Wire S) (z : IsStore r) (c : IsClearing r z)
    (pr : IsPruning r z) where
  open z use {value}

  -- A property that the last step leaves is as it was before.
  after_prune :
      (b : Bool) (src dest anchor p : Str) (s t : S)
      → (if b then done else prune_both r w src dest anchor) s ≡ (ok tt, t)
      → value t dest p ≡ value s dest p
  after_prune b src dest anchor p s t e =
      ap (λ x. value x.1 dest p) (sym e)
      ∙ Keeps-if (λ u. value u dest p) b done (prune_both r w src dest anchor) (λ s. refl)
          (prune_both-Keeps r w z dest p pr src dest anchor) s

  work_done :
      (utc_ns : ℕ) (k : Reception) (o : Option Str) (s t : S)
      → receive_work r w utc_ns k o s ≡ (ok tt, t)
      → Received r w z t k.local_dataset
  unfolding receive_work
  work_done utc_ns k o s t h =
      let ds = k.local_dataset in
      continue_cases (choose_anchor r w k.remote_src k.bounded_snap utc_ns s) _ h λ anchor s1 e1 h1.
        continue_cases ((if k.existed then clear_readonly r w ds else pure false) s1) _ h1
          λ was s2 e2 h2. continue_cases (receive_transfer r w k o anchor was s2) _ h2 λ _ s3 e3 h3.
            continue_cases (set_be_contract r ds s3) _ h3 λ _ s4 e4 h4.
              continue_cases (set_readonly_tolerant r ds (codes "on") s4) _ h4 λ _ s5 e5 h5.
                let q = contract_done r w z ds s3 s4 s5 e4 e5 in
                let still = λ (p : Str). after_prune (is_some o) k.remote_src ds anchor p s5 t h5 in
                record {
                  canmount = still (codes "canmount") ∙ q.canmount;
                  mountpoint = still (codes "mountpoint") ∙ q.mountpoint;
                  be = still (codes "zboot:be") ∙ q.be;
                  readonly = still (codes "readonly") ∙ q.readonly;
                }

  -- Where the commands read, write and clear properties as documented, whatever the pipe and the rollback
  -- do: receiving that succeeds, forced or not, leaves the local dataset read-only and with the properties
  -- of a boot environment.
  pub receive_into_done :
      (utc_ns : ℕ) (k : Reception) (s t : S)
      → receive_into r w utc_ns k s ≡ (ok tt, t)
      → Received r w z t k.local_dataset
  unfolding receive_into
  receive_into_done utc_ns k s t h =
      continue_cases (receive_checks r w k s) _ h λ o s1 e h1. work_done utc_ns k o s1 t h1

  pair_initial-Keeps :
      (remote local d p : Str) (bound : Option Str)
      → is_pair_property p ≡ false
      → Keeps (λ s. value s d p) (pair_initial r w remote local bound)
  unfolding pair_initial
  pair_initial-Keeps remote local d p (some snap) h =
      Keeps-bind (λ s. value s d p) (attempt (clear_pair_pointer r local)) _
        (Keeps-attempt (λ s. value s d p) (clear_pair_pointer r local)
          (clear-Keeps r w z c d p h local))
        (λ _ s. refl)
  pair_initial-Keeps remote local d p none h =
      Keeps-bind at (lift (ok_or (parse_dataset remote) (not_canonical remote))) _ (λ s. refl)
        λ local_peer.
          Keeps-bind at (lift (ok_or (parse_dataset local) (not_canonical local))) _ (λ s. refl)
            λ remote_peer.
              Keeps-bind at (write_pair_pointer r local local_peer) _
                (write-Keeps r w z c d p h local local_peer)
                λ _.
                  Keeps-bind at
                    (attempt (set_property_tolerant r local (codes "zboot:primary") (codes "off")))
                    _ (marked-Keeps r w z c d p h local (codes "off"))
                    λ _.
                      Keeps-bind at (read_pair_pointer r remote) _
                        (λ s. ap at (read_pair_pointer-Quiet r z remote s))
                        λ o.
                          Keeps-if at (is_some o) done (write_pair_pointer r remote remote_peer)
                            (λ s. refl) (write-Keeps r w z c d p h remote remote_peer)
    where
      at : S → Str
      at s = value s d p

  -- The same of a pull that makes a new boot environment, which has the name that was given and is on the
  -- pool that is booted.
  pub pull_initial_done :
      (mounts : Option Str) (utc_ns : ℕ) (remote : Str) (bound : Option Str) (name : Str)
      (force : Bool) (s t : S)
      → pull_initial r w mounts utc_ns remote bound name force s ≡ (ok tt, t)
      → (pool : Str) × (discover_booted_pool mounts ≡ ok pool)
        × Received r w z t (pool ++ (codes "/ROOT/" ++ name))
  unfolding pull_initial str_beq
  pull_initial_done mounts utc_ns remote bound name force s t h =
      continue_cases (guard (contains_char b'/' remote) (bad_target remote) s) _ h λ _ s1 e1 h1.
        continue_cases (dataset_exists r remote s1) _ h1 λ there s2 e2 h2.
          continue_cases (guard there (not_found remote) s2) _ h2 λ _ s3 e3 h3.
            continue_cases (require_snapshot r w remote bound s3) _ h3 λ _ s4 e4 h4.
              continue_cases (require_role_root r (first_part b'/' remote) s4) _ h4 λ _ s5 e5 h5.
                continue_cases (lift (discover_booted_pool mounts) s5) _ h5 λ pool s6 e6 h6.
                  let local = pool ++ (codes "/ROOT/" ++ name) in
                  continue_cases (require_role_root r pool s6) _ h6 λ _ s7 e7 h7.
                    continue_cases (exists_or_false r w local s7) _ h7 λ taken s8 e8 h8.
                      continue_cases (guard (not taken) (exists local) s8) _ h8 λ _ s9 e9 h9.
                        continue_cases (ensure_root_container r pool s9) _ h9 λ _ s10 e10 h10.
                          let k : Reception = (record {
                            remote_src = remote;
                            local_dataset = local;
                            bounded_snap = bound;
                            force = force;
                            existed = false;
                          }) in
                          continue_cases (receive_into r w utc_ns k s10) _ h10 λ _ s11 e11 h11.
                            let q = receive_into_done utc_ns k s10 s11 e11 in
                            (
                              pool,
                              (lift-eq-ok (discover_booted_pool mounts) s5 e6).0,
                              record {
                                canmount = still local s11 (codes "canmount") refl h11 ∙ q.canmount;
                                mountpoint =
                                    still local s11 (codes "mountpoint") refl h11 ∙ q.mountpoint;
                                be = still local s11 (codes "zboot:be") refl h11 ∙ q.be;
                                readonly = still local s11 (codes "readonly") refl h11 ∙ q.readonly;
                              },
                            )
    where
      still :
          (local : Str) (u : S) (p : Str)
          → is_pair_property p ≡ false
          → pair_initial r w remote local bound u ≡ (ok tt, t)
          → value t local p ≡ value u local p
      still local u p is e =
          ap (λ x. value x.1 local p) (sym e) ∙ pair_initial-Keeps remote local local p bound is u
