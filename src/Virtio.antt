-- ===== src/Virtio.antt =====
-- drivers/virtio_blk.c: one request at a time on a split queue, whose end the driver polls for. The
-- queue, the header, the status byte and the sector buffer are the record `Ring`, which driver and
-- device share; the device is a parameter, which gives what stands there at each later look of the
-- driver. The set-up of the device through its ports is left out.
pub mod Requests
pub mod Setup
pub mod Ready
use uix.Base.{
  ℕ, zero, suc, ◌+◌, ◌-◌, ◌*◌, ◌/◌, ◌%◌, ◌^◌, Bool, Option, none, some, ltb, ◌==◌, if◌then◌else◌,
}

-- `struct vring_desc`
pub record Desc : Type 0 where
  pub addr : ℕ
  pub len : ℕ
  pub flags : ℕ
  pub next : ℕ

-- `hdr` and `status` are the request header and the status byte, `buf` the 512 bytes of the sector.
pub record Ring : Type 0 where
  pub desc : ℕ → Desc
  pub avail_idx : ℕ
  pub avail_ring : ℕ → ℕ
  pub used_idx : ℕ
  pub hdr_type : ℕ
  pub hdr_sector : ℕ
  pub status : ℕ
  pub buf : ℕ → ℕ

-- the static variables that `virtio_blk_init` sets
pub record Driver : Type 0 where
  pub qsize : ℕ
  pub ring_pa : ℕ

abbrev pub buf_pa : Driver → ℕ
buf_pa d = d.ring_pa + 3 * 4096

abbrev pub hdr_off : ℕ
hdr_off = 3 * 4096 + 0x400

abbrev pub st_off : ℕ
st_off = 3 * 4096 + 0x4FF

-- where `virtio_blk_init` puts the available and the used ring, for a queue of `q` entries
unfoldable pub avail_off : ℕ → ℕ
avail_off q = 16 * q

unfoldable pub used_off : ℕ → ℕ
unfolding avail_off
used_off q = (avail_off q + 6 + 2 * q + 0xFFF) / 4096 * 4096

abbrev pub desc_f_next : ℕ
desc_f_next = 1

abbrev pub desc_f_write : ℕ
desc_f_write = 2

-- The three descriptors of a request; a read lets the device write the sector.
unfoldable pub descriptors : Driver → ℕ → (ℕ → Desc) → ℕ → Desc
descriptors d type old i =
    if i == 0
    then record { addr = d.ring_pa + hdr_off; len = 16; flags = desc_f_next; next = 1 }
    else if i == 1
    then record {
      addr = buf_pa d;
      len = 512;
      flags = desc_f_next + (if type == 0 then desc_f_write else 0);
      next = 2;
    }
    else if i == 2
    then record { addr = d.ring_pa + st_off; len = 1; flags = desc_f_write; next = 0 }
    else old i

-- the ring when the device is notified
unfoldable pub prepared : Driver → ℕ → ℕ → (ℕ → ℕ) → Ring → Ring
unfolding descriptors
prepared d type sector bytes r = record r {
  hdr_type = type;
  hdr_sector = sector;
  status = 0xFF;
  desc = descriptors d type r.desc;
  buf = if type == 1 then bytes else r.buf;
  avail_ring = λ i. if i == r.avail_idx % d.qsize then 0 else r.avail_ring i;
  avail_idx = (r.avail_idx + 1) % 2 ^ 16;
}

unfoldable pub max_spins : ℕ
max_spins = 200000000

-- The loop that waits for the used index to leave `last`: the look at which it does, `looks` at most.
unfoldable pub poll_used : (ℕ → ℕ) → ℕ → ℕ → ℕ → Option ℕ
poll_used used last zero t = none
poll_used used last (suc looks) t =
    let rest = poll_used used last looks (suc t) in if used t == last then rest else some t

-- what `do_request` returns: 0 or -5, and the buffer of the caller
pub data Answer : Type 0 where
  done : (ℕ → ℕ) → Answer
  failed : (ℕ → ℕ) → Answer
  timeout : Answer

-- what follows the wait, `seen t` being the ring at look `t`
unfoldable pub after_wait : (ℕ → Ring) → ℕ → (ℕ → ℕ) → Option ℕ → Answer
after_wait seen type bytes none = timeout
after_wait seen type bytes (some t) =
    let out = if type == 0 then (seen (t + 1)).buf else bytes in
    if (seen (t + 2)).status == 0 then done out else failed out

-- `do_request`. `device r t` is the ring at look `t` at it after the notification with `r`; the
-- first look, at time 0, is the one that sets `last`.
unfoldable pub do_request : (Ring → ℕ → Ring) → Driver → ℕ → ℕ → (ℕ → ℕ) → Ring → Answer
unfolding prepared poll_used after_wait
do_request device d type sector bytes r =
    let seen = device (prepared d type sector bytes r) in
    after_wait seen type bytes
      (poll_used (λ t. (seen t).used_idx) (seen 0).used_idx (max_spins + 1) 1)

unfoldable pub virtio_blk_read : (Ring → ℕ → Ring) → Driver → ℕ → (ℕ → ℕ) → Ring → Answer
unfolding do_request
virtio_blk_read device d sector buf r = do_request device d 0 sector buf r

unfoldable pub virtio_blk_write : (Ring → ℕ → Ring) → Driver → ℕ → (ℕ → ℕ) → Ring → Answer
unfolding do_request
virtio_blk_write device d sector buf r = do_request device d 1 sector buf r
