-- ===== src/Pipe/Fields.antt =====
-- A pipe is decoded to what it was created from.
use pure_usb.Prelude.{
  ℕ, zero, suc, refl, bit_xor, ◌-◌, ◌+◌, ◌*◌, ◌/◌, ◌%◌, ◌^◌, ◌<◌, ◌≡◌, arith, bit_and, shr,
}
use pure_usb.Prelude.Bits.{
  bit_or-split, bit_or-disjoint, bit_or-disjoint_low, bit_and-mask, bit_or-zero,
}
use pure_usb.Defs.{pipe_control}
use pure_usb.Device.{Device}
use pure_usb.Pipe.{
  create_pipe, snd_pipe, rcv_pipe, usb_snddefctrl, usb_pipein, usb_pipeout, usb_pipedevice,
  usb_pipeendpoint, usb_pipespeed, usb_pipetype,
}

-- What a device must hold for its pipes to be decodable: each field fits its bits.
pub record PipeFits (d : Device) (endpoint : ℕ) : Type 0 where
  pub devnum_fits : d.devnum < 128
  pub endpoint_fits : endpoint < 16
  pub speed_fits : d.speed < 4
  pub size_fits : d.maxpacketsize < 4

pub create_pipe-sum :
    {d : Device} {endpoint : ℕ}
    → PipeFits d endpoint
    → create_pipe d endpoint
      ≡ d.speed * 2 ^ 26 + endpoint * 2 ^ 15 + d.devnum * 2 ^ 8 + d.maxpacketsize
unfolding create_pipe
create_pipe-sum {d} {endpoint} h = ground (
  arith,
  h.devnum_fits,
  h.endpoint_fits,
  h.speed_fits,
  h.size_fits,
  bit_or-disjoint_low 15 endpoint (d.devnum * 2 ^ 8),
  bit_or-disjoint_low 26 d.speed (endpoint * 2 ^ 15 + d.devnum * 2 ^ 8),
  bit_or-disjoint 8 (d.speed * 2 ^ 18 + endpoint * 2 ^ 7 + d.devnum) d.maxpacketsize,
)

-- What the eight macros that create pipes put together, as a sum of fields.
pub snd_pipe-sum :
    (type : ℕ) {d : Device} {endpoint : ℕ}
    → type < 4
    → PipeFits d endpoint
    → snd_pipe type d endpoint ≡ type * 2 ^ 30 + create_pipe d endpoint
unfolding snd_pipe
snd_pipe-sum type {d} {endpoint} t h = ground (
  arith,
  h.devnum_fits,
  h.endpoint_fits,
  h.speed_fits,
  h.size_fits,
  create_pipe-sum h,
  bit_or-disjoint 30 type (create_pipe d endpoint),
)

-- The direction bit falls between the maximum size and the device number.
pub rcv_pipe-sum :
    (type : ℕ) {d : Device} {endpoint : ℕ}
    → type < 4
    → PipeFits d endpoint
    → rcv_pipe type d endpoint ≡ type * 2 ^ 30 + create_pipe d endpoint + 0x80
unfolding rcv_pipe snd_pipe
rcv_pipe-sum type {d} {endpoint} t h =
    let sum = snd_pipe-sum type t h in
    ground (
      arith,
      sum,
      create_pipe-sum h,
      h.size_fits,
      bit_or-split 8 (type * 2 ^ 22 + d.speed * 2 ^ 18 + endpoint * 2 ^ 7 + d.devnum)
          d.maxpacketsize 0 0x80,
      bit_or-zero (type * 2 ^ 22 + d.speed * 2 ^ 18 + endpoint * 2 ^ 7 + d.devnum),
      bit_or-disjoint_low 7 1 d.maxpacketsize,
    )

-- the fields of a pipe, by the macros that decode it
pub record Decodes (pipe type endpoint inward : ℕ) (d : Device) : Type 0 where
  pub pipetype : usb_pipetype pipe ≡ type
  pub pipespeed : usb_pipespeed pipe ≡ d.speed
  pub pipeendpoint : usb_pipeendpoint pipe ≡ endpoint
  pub pipedevice : usb_pipedevice pipe ≡ d.devnum
  pub pipein : usb_pipein pipe ≡ inward
  pub pipeout : usb_pipeout pipe ≡ 1 - inward
  pub max_size : pipe % 4 ≡ d.maxpacketsize

flip_bit : (b : ℕ) → b < 2 → bit_xor b 1 ≡ 1 - b
flip_bit zero h = refl
flip_bit (suc zero) h = refl
flip_bit (suc (suc b)) h = absurd (omega arith)

Decodes-of_sum :
    {type endpoint inward : ℕ} {d : Device} (pipe : ℕ)
    → type < 4
    → inward < 2
    → PipeFits d endpoint
    → pipe
      ≡ type * 2 ^ 30
        + (d.speed * 2 ^ 26 + endpoint * 2 ^ 15 + d.devnum * 2 ^ 8 + d.maxpacketsize)
        + inward * 0x80
    → Decodes pipe type endpoint inward d
unfolding usb_pipetype usb_pipespeed usb_pipeendpoint usb_pipedevice usb_pipein usb_pipeout
Decodes-of_sum {inward = inward} pipe t i h e = record {
  pipetype = omega (arith, bit_and-mask 2 (pipe / 2 ^ 30));
  pipespeed = omega (arith, bit_and-mask 2 (pipe / 2 ^ 26));
  pipeendpoint = omega (arith, bit_and-mask 4 (pipe / 2 ^ 15));
  pipedevice = omega (arith, bit_and-mask 7 (pipe / 2 ^ 8));
  pipein = direction;
  pipeout = rw direction (flip_bit inward i);
  max_size = omega arith;
}
  where
    direction : bit_and (shr pipe 7) 1 ≡ inward
    direction = omega (arith, bit_and-mask 1 (pipe / 2 ^ 7))

-- Every pipe that the macros create, of whatever type and direction, decodes to the type, the
-- endpoint, the direction, and the device's number, speed and packet size code that it was made
-- from, if the device number fits 7 bits, the endpoint 4, and speed and size 2 bits each.
pub create-decode :
    (type : ℕ) {d : Device} {endpoint : ℕ}
    → type < 4
    → PipeFits d endpoint
    → Decodes (snd_pipe type d endpoint) type endpoint 0 d
      × Decodes (rcv_pipe type d endpoint) type endpoint 1 d
create-decode type {d} {endpoint} t h = (
  Decodes-of_sum (snd_pipe type d endpoint) t (omega arith) h
      (omega (arith, snd_pipe-sum type t h, create_pipe-sum h)),
  Decodes-of_sum (rcv_pipe type d endpoint) t (omega arith) h
      (omega (arith, rcv_pipe-sum type t h, create_pipe-sum h)),
)

-- The default control pipe addresses device 0, endpoint 0, outwards.
pub default_pipe-Decodes :
    (d : Device)
    → d.speed < 4
    → Decodes (usb_snddefctrl d) pipe_control 0 0 (record d { devnum = 0; maxpacketsize = 0 })
unfolding usb_snddefctrl
default_pipe-Decodes d h =
    Decodes-of_sum (usb_snddefctrl d) (omega arith) (omega arith)
      (record {
        devnum_fits = omega arith;
        endpoint_fits = omega arith;
        speed_fits = h;
        size_fits = omega arith;
      })
      (ground (arith, h, bit_or-disjoint 30 2 (d.speed * 2 ^ 26)))
