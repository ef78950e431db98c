-- ===== src/Acct/Ioctl/Disabling.antt =====
-- What ACCT_IOC_ENABLE and ACCT_IOC_DISABLE do to the events that are on.
use cprogramming.Prelude.{
  ℕ, ◌%◌, ◌≡◌, ◌≢◌, refl, arith, none, bit_and, bit_or, true, bit_and-zero, bit_and-one, le-bit_or,
  bit_and-bit_or,
}
use cprogramming.Acct.Types.{Vnode, Ctl}
use cprogramming.Acct.Kernel.{Kernel, TreeLaws}
use cprogramming.Acct.Track.{State, nonzero, trktree_vnodelookup}
use cprogramming.Acct.Track.Laws.{trktree_delete_vnodes_all}
use cprogramming.Acct.Ioctl.{enable, disable, acctioctl, ioctl_disable, and_ena_all}

-- The test for ACCT_ENA_ALL succeeds whatever was asked for.
and_ena_all-nonzero : (x : ℕ) → nonzero (and_ena_all x) ≡ true
unfolding and_ena_all
and_ena_all-nonzero x =
    ground
      (arith, le-bit_or (bit_or (bit_or (bit_or (bit_or (bit_or (bit_and x 1) 2) 4) 8) 16) 32) 64)

module _ (K : Kernel) (L : TreeLaws K) where
  -- Enabling turns on what was asked for, hands back all that is on, and touches neither the
  -- tracked files nor the queue.
  enable_lem :
      (s : State K) (c : Ctl)
      → let (errno, c', s') = acctioctl K enable c s in
        (errno ≡ 0)
        × (bit_and s'.ctl.acct_ena c.acct_ena ≡ c.acct_ena)
        × (c'.acct_ena ≡ s'.ctl.acct_ena)
        × (s'.f_tracker ≡ s.f_tracker)
        × (s'.acct_list ≡ s.acct_list)
        × (s'.ctl.acct_fcount ≡ s.ctl.acct_fcount)
  unfolding acctioctl
  enable_lem s c = (refl, bit_and-bit_or s.ctl.acct_ena c.acct_ena, refl, refl, refl, refl)

  -- Disabling any event turns off every event, and disabling none leaves at most ACCT_ENA_FORK on.
  -- Either way no file is tracked any more, and the count of tracked files is left as it was.
  pub disable_lem :
      (s : State K) (c : Ctl)
      → let (errno, c', s') = acctioctl K disable c s in
        (errno ≡ 0)
        × (c.acct_ena ≢ 0 → s'.ctl.acct_ena ≡ 0)
        × (c.acct_ena ≡ 0 → s'.ctl.acct_ena ≡ s.ctl.acct_ena % 2)
        × ((k : Vnode) → trktree_vnodelookup K s' k ≡ none)
        × (s'.ctl.acct_fcount ≡ s.ctl.acct_fcount)
        × (c'.acct_fcount ≡ s.ctl.acct_fcount)
  unfolding acctioctl ioctl_disable trktree_vnodelookup
  disable_lem s c = (
    refl,
    λ h. ground (arith, bit_and-zero s.ctl.acct_ena),
    λ h. ground (arith, bit_and-one s.ctl.acct_ena),
    λ k.
        ground
          (arith, and_ena_all-nonzero c.acct_ena, (trktree_delete_vnodes_all K L s.f_tracker).0 k),
    refl,
    refl,
  )
