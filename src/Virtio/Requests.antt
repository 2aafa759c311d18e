-- ===== src/Virtio/Requests.antt =====
-- Requests of drivers/virtio_blk.c: when they succeed, when they time out, and where the rings lie.
use uix.Base.{
  ℕ, zero, suc, ◌+◌, ◌*◌, ◌%◌, ◌^◌, ◌≤◌, ◌<◌, ◌≡◌, ◌≢◌, refl, ◌∙◌, ap, true, false, none, some,
  ◌==◌, arith, ne→==, ==_self, Bool-cases, ==→eq, inl, inr, sym,
}
use uix.Virtio.{
  Ring, Driver, avail_off, used_off, poll_used, prepared, after_wait, do_request, virtio_blk_read,
  max_spins, done, timeout,
}

-- A change of the used index at look `k` ends the wait there.
poll_ends :
    (used : ℕ → ℕ) (last looks t k : ℕ)
    → t ≤ k
    → k < t + looks
    → ((j : ℕ) → t ≤ j → j < k → used j ≡ last)
    → used k ≢ last
    → poll_used used last looks t ≡ some k
unfolding poll_used
poll_ends used last zero t k lo hi same change = absurd (omega arith)
poll_ends used last (suc looks) t k lo hi same change = elim (Bool-cases (t == k)) [
  | inl e ↦
      let here : t ≡ k = ==→eq t k e in
      let left : (used t == last) ≡ false = rw here (ne→== (used k) last change) in
      rw (left, here) refl
  | inr e ↦
      let waits : (used t == last) ≡ true =
        rw (same t (omega arith) (ground arith)) (==_self last) in
      rw waits (
        poll_ends used last looks (suc t) k (ground arith) (omega arith)
          (λ j lo' hi'. same j (omega arith) hi') change)
]

-- Without a change, it times out.
poll_times_out :
    (used : ℕ → ℕ) (last looks t : ℕ)
    → ((j : ℕ) → t ≤ j → used j ≡ last)
    → poll_used used last looks t ≡ none
unfolding poll_used
poll_times_out used last zero t same = refl
poll_times_out used last (suc looks) t same =
    let waits : (used t == last) ≡ true = rw (same t (omega arith)) (==_self last) in
    rw waits (poll_times_out used last looks (suc t) (λ j lo. same j (omega arith)))

after_wait_done :
    (seen : ℕ → Ring) (buf : ℕ → ℕ) (k : ℕ)
    → (seen (k + 2)).status ≡ 0
    → after_wait seen 0 buf (some k) ≡ done (seen (k + 1)).buf
unfolding after_wait
after_wait_done seen buf k good = rw good refl

-- A read returns what the device has put into the sector buffer, if the device raises the used index
-- after the driver has looked at it once and within `max_spins + 1` looks, with a status of 0.
pub virtio_blk_read_lem :
    (device : Ring → ℕ → Ring) (d : Driver) (sector : ℕ) (buf : ℕ → ℕ) (r : Ring) (k : ℕ)
    → let seen = device (prepared d 0 sector buf r) in
      1 ≤ k
      → k ≤ max_spins + 1
      → ((j : ℕ) → 1 ≤ j → j < k → (seen j).used_idx ≡ (seen 0).used_idx)
      → (seen k).used_idx ≢ (seen 0).used_idx
      → (seen (k + 2)).status ≡ 0
      → virtio_blk_read device d sector buf r ≡ done (seen (k + 1)).buf
unfolding virtio_blk_read do_request
virtio_blk_read_lem device d sector buf r k lo hi same change good =
    let seen = device (prepared d 0 sector buf r) in
    ap (after_wait seen 0 buf) (
      poll_ends (λ t. (seen t).used_idx) (seen 0).used_idx (max_spins + 1) 1 k lo (omega arith) same
        change)
    ∙ after_wait_done seen buf k good

-- A device that has finished the request before the driver looks at the used index for the first
-- time makes the read time out, whatever the status and the data.
pub virtio_blk_read_late :
    (device : Ring → ℕ → Ring) (d : Driver) (sector : ℕ) (buf : ℕ → ℕ) (r : Ring)
    → ((t : ℕ) → (device (prepared d 0 sector buf r) t).used_idx ≡ (r.used_idx + 1) % 2 ^ 16)
    → virtio_blk_read device d sector buf r ≡ timeout
unfolding virtio_blk_read do_request after_wait
virtio_blk_read_late device d sector buf r quick =
    let seen = device (prepared d 0 sector buf r) in
    ap (after_wait seen 0 buf) (
      poll_times_out (λ t. (seen t).used_idx) (seen 0).used_idx (max_spins + 1) 1
        (λ j lo. quick j ∙ sym (quick 0)))

-- For every queue size that `virtio_blk_init` accepts, the available ring lies behind the descriptors,
-- the used ring, on a page of its own, behind the available ring, and both in front of the page of the
-- sector buffer.
pub ring_layout :
    (q : ℕ)
    → 0 < q
    → q ≤ 256
    → (16 * q ≤ avail_off q)
      × (avail_off q + 6 + 2 * q ≤ used_off q)
      × (used_off q % 4096 ≡ 0)
      × (used_off q + 6 + 8 * q ≤ 3 * 4096)
unfolding avail_off used_off
ring_layout q lo hi = omega arith
