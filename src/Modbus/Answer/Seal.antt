-- ===== src/Modbus/Answer/Seal.antt =====
-- The checksum at the end of an answer of `build_test_response`.
use i_mx6ull_water_qualit.Base.{
  ℕ, ◌+◌, ◌-◌, ◌*◌, ◌/◌, ◌%◌, ◌^◌, ◌≤◌, ◌<◌, ◌≡◌, sym, ap, ◌∙◌, arith, List, length, length-set,
  get_or, get_or-set_self, get_or-set_ne, set, take, take-set_after, IsBytes, All-set, All-take,
}
use i_mx6ull_water_qualit.Modbus.{func_read_holding}
use i_mx6ull_water_qualit.Modbus.Crc.{crc_start}
use i_mx6ull_water_qualit.Modbus.Crc.Fold.{crc_bytes, crc_bytes-lt}
use i_mx6ull_water_qualit.Modbus.Response.Exact.{Accepts}

-- the checksum of the first `k` bytes put behind them
abbrev pub seal : List ℕ → ℕ → List ℕ
seal buf k =
    let crc = crc_bytes crc_start (take k buf) in
    set (set buf k (crc % 2 ^ 8)) (k + 1) (crc / 2 ^ 8)

module _ (mid : List ℕ) (k : ℕ) (bytes : IsBytes mid) (room : 2 + k ≤ length mid) where
  pub crc_small : crc_bytes crc_start (take k mid) < 2 ^ 16
  crc_small =
      crc_bytes-lt crc_start (take k mid) (omega arith) (All-take (λ b. b < 2 ^ 8) k mid bytes)

  pub seal-IsBytes : IsBytes (seal mid k)
  seal-IsBytes =
      All-set (λ b. b < 2 ^ 8) (set mid k (crc_bytes crc_start (take k mid) % 2 ^ 8)) (k + 1) _
        (All-set (λ b. b < 2 ^ 8) mid k _ bytes (omega arith)) (omega (arith, crc_small))

  pub length-seal : length (seal mid k) ≡ length mid
  length-seal =
      length-set (set mid k (crc_bytes crc_start (take k mid) % 2 ^ 8)) (k + 1)
        (crc_bytes crc_start (take k mid) / 2 ^ 8)
      ∙ length-set mid k (crc_bytes crc_start (take k mid) % 2 ^ 8)

  -- Sealing changes nothing before the checksum,
  pub seal_before : (j : ℕ) → j < k → get_or (seal mid k) j 0 ≡ get_or mid j 0
  seal_before j h =
      get_or-set_ne (set mid k (crc_bytes crc_start (take k mid) % 2 ^ 8)) (k + 1) j _ 0
        (omega arith)
      ∙ get_or-set_ne mid k j _ 0 (omega arith)

  take-seal : take k (seal mid k) ≡ take k mid
  take-seal =
      take-set_after (set mid k (crc_bytes crc_start (take k mid) % 2 ^ 8)) k (k + 1) _
        (omega arith)
      ∙ take-set_after mid k k _ (omega arith)

  -- and puts the checksum behind it.
  seal_crc :
      get_or (seal mid k) (k + 1) 0 * 2 ^ 8 + get_or (seal mid k) k 0
      ≡ crc_bytes crc_start (take k mid)
  seal_crc = ground (
    arith,
    length-set mid k (crc_bytes crc_start (take k mid) % 2 ^ 8),
    get_or-set_self (set mid k (crc_bytes crc_start (take k mid) % 2 ^ 8)) (k + 1)
        (crc_bytes crc_start (take k mid) / 2 ^ 8) 0,
    get_or-set_ne (set mid k (crc_bytes crc_start (take k mid) % 2 ^ 8)) (k + 1) k
        (crc_bytes crc_start (take k mid) / 2 ^ 8) 0,
    get_or-set_self mid k (crc_bytes crc_start (take k mid) % 2 ^ 8) 0,
  )

  pub seal-Accepts :
      get_or mid 1 0 ≡ func_read_holding → k ≡ get_or mid 2 0 + 3 → Accepts (seal mid k) (k + 2)
  seal-Accepts f s = record {
    function = seal_before 1 (omega arith) ∙ f;
    sized = omega (arith, seal_before 2 (omega arith));
    checked =
        ap (λ i. get_or (seal mid k) i 0 * 2 ^ 8 + get_or (seal mid k) (k + 2 - 2) 0)
          {x = k + 2 - 1} (omega arith)
        ∙ ap (λ i. get_or (seal mid k) (k + 1) 0 * 2 ^ 8 + get_or (seal mid k) i 0) {x = k + 2 - 2}
            (omega arith)
        ∙ seal_crc
        ∙ ap (crc_bytes crc_start) (sym take-seal)
        ∙ ap (λ i. crc_bytes crc_start (take i (seal mid k))) {y = k + 2 - 2} (omega arith);
  }
