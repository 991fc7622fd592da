-- ===== src/Jitter/State.antt =====
-- The members of `JitterBuffer<Ctx>`, its sequence arithmetic and the tuning of its delay.
-- A time is an argument `now` of each call, the value of the one `now_us()` that the call makes.
use rtstream.Prelude.{ℕ, ◌+◌, ◌-◌, ◌%◌, ◌^◌, Bool, false, ◌&&◌, not, [], leb, if◌then◌else◌}
use rtstream.Prelude.Int.{ℤ, pos, ◌+ℤ◌, ◌-ℤ◌, ltb_ℤ}
use rtstream.Prelude.Maps.{Map}
use rtstream.Jitter.Double.{Double}

-- `struct Unit`
pub record Packet (Ctx : Type 0) : Type 0 where
  pub seq : ℕ
  pub gen_us : ℤ
  pub first_recv_us : ℤ
  pub content : Ctx

-- `jitter_metric` is the gauge `Metrics::jitter_ms`; `miss_set` says whether `on_missing_` holds a
-- function. A slot of the map is present exactly when its `data` is: `push` fills the slot that
-- `buf_[seq]` makes, and no caller hands in a null pointer.
pub record JitterBuffer (D : Double) (Ctx : Type 0) : Type 0 where
  pub buf : Map (Packet Ctx)
  pub next_out : ℕ
  pub started : Bool
  pub head_missing_since_us : ℤ
  pub first_arrival_us : ℤ
  pub last_arrival_us : ℤ
  pub last_gen_us : ℤ
  pub last_pop_us : ℤ
  pub jitter_us : D.Num
  pub jitter_metric : D.Num
  pub rtt_ms : D.Num
  pub target_delay_us : ℤ
  pub max_wait_us : ℤ
  pub nack_interval_us : ℤ
  pub last_nack_us : Map ℤ
  pub miss_set : Bool
  pub max_units : ℕ
  pub total_buffered : ℕ

abbrev pub min_delay_us : ℤ
min_delay_us = pos 15000

abbrev pub max_delay_us : ℤ
max_delay_us = pos 250000

-- `static_cast<int32_t>(a - b) < 0`
abbrev pub seq_lt : ℕ → ℕ → Bool
seq_lt a b = leb (2 ^ 31) ((a + 2 ^ 32 - b) % 2 ^ 32)

abbrev pub seq_delta : ℕ → ℕ → ℕ
seq_delta a b = (a + 2 ^ 32 - b) % 2 ^ 32

-- `v < 0` and `v == 0` on `int64_t`
abbrev pub is_zero : ℤ → Bool
is_zero t = not (ltb_ℤ t (pos 0)) && not (ltb_ℤ (pos 0) t)

abbrev pub max_ℤ : ℤ → ℤ → ℤ
max_ℤ a b = if ltb_ℤ a b then b else a

abbrev pub min_ℤ : ℤ → ℤ → ℤ
min_ℤ a b = if ltb_ℤ b a then b else a

-- There was an arrival before, and the two time stamps make sense.
unfoldable pub usable : ℤ → ℤ → ℤ → Bool
usable last_arrival d_arr d_gen =
    not (is_zero last_arrival) && (ltb_ℤ (pos 0) d_gen && not (ltb_ℤ d_arr (pos 0)))

-- `D` of RFC 3550 between two arrivals, without its sign and at most 200 ms.
unfoldable pub deviation : (D : Double) → ℤ → ℤ → D.Num
deviation D d_arr d_gen =
    let d = of_int (d_arr -ℤ d_gen) in
    let size = if less d (of_int (pos 0)) then negate d else d in
    if less (of_int (pos 200000)) size then of_int (pos 200000) else size
  where
    open D use {of_int, negate, less}

module _ (D : Double) {Ctx : Type 0} where
  open D use {of_int, to_int, plus, minus, times, over}

  unfoldable pub new : ℕ → JitterBuffer D Ctx
  new max_units = record {
    buf = [];
    next_out = 0;
    started = false;
    head_missing_since_us = pos 0;
    first_arrival_us = pos 0;
    last_arrival_us = pos 0;
    last_gen_us = pos 0;
    last_pop_us = pos 0;
    jitter_us = of_int (pos 0);
    jitter_metric = of_int (pos 0);
    rtt_ms = of_int (pos 0);
    target_delay_us = pos 40000;
    max_wait_us = pos 130000;
    nack_interval_us = pos 10000;
    last_nack_us = [];
    miss_set = false;
    max_units = max_units;
    total_buffered = 0;
  }

  -- `retune_target_locked`
  unfoldable pub retune_target : JitterBuffer D Ctx → JitterBuffer D Ctx
  retune_target jb =
      let wanted =
        to_int (plus (times (of_int (pos 3)) jb.jitter_us) (times jb.rtt_ms (of_int (pos 1000)))) in
      let target = min_ℤ (max_ℤ wanted min_delay_us) max_delay_us in
      record jb { target_delay_us = target; max_wait_us = target +ℤ target +ℤ pos 50000 }

  unfoldable pub set_rtt_ms : JitterBuffer D Ctx → D.Num → JitterBuffer D Ctx
  unfolding retune_target
  set_rtt_ms jb ms = retune_target (record jb { rtt_ms = ms })

  -- The EWMA with weight 1/16, and its gauge in milliseconds.
  unfoldable pub smooth : JitterBuffer D Ctx → D.Num → JitterBuffer D Ctx
  smooth jb size =
      let jitter = plus jb.jitter_us (over (minus size jb.jitter_us) (of_int (pos 16))) in
      record jb { jitter_us = jitter; jitter_metric = over jitter (of_int (pos 1000)) }

  -- The estimate of `push`, for a packet that is the next one in order.
  unfoldable pub estimate : JitterBuffer D Ctx → ℤ → ℤ → JitterBuffer D Ctx
  unfolding deviation smooth retune_target usable
  estimate jb gen_us now =
      let d_arr = now -ℤ jb.last_arrival_us in
      let d_gen = gen_us -ℤ jb.last_gen_us in
      if usable jb.last_arrival_us d_arr d_gen
      then retune_target (smooth jb (deviation D d_arr d_gen))
      else jb
