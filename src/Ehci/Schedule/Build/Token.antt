-- ===== src/Ehci/Schedule/Build/Token.antt =====
-- The fields of the tokens that are built: none runs into its neighbour.
use pure_usb.Prelude.{
  ℕ, ◌+◌, ◌*◌, ◌^◌, ◌<◌, ◌≡◌, ◌==◌, ltb, not, Bool, true, false, Bool-cases, inl, inr, List, [],
  ◌∷◌, Option, none, some, bit_and, shr, arith,
}
use pure_usb.Prelude.Bits.{bit_or-disjoint, bit_and-mask}
use pure_usb.Device.{Device, DevRequest}
use pure_usb.Pipe.{usb_pipein, usb_pipeout, usb_pipeendpoint}
use pure_usb.Pipe.Toggle.{gettoggle-lt}
use pure_usb.Ehci.Schedule.{Statics, devrequest_size}
use pure_usb.Ehci.Schedule.Build.{token_word, bit, first_toggle}
use pure_usb.Ehci.Schedule.Build.Stages.{Stage, stages, stage_token, data_pid, ack_pid, BufferFits}

-- what the controller takes from a token
pub record Fields (t toggle len ioc pid : ℕ) : Type 0 where
  pub toggle_field : shr t 31 ≡ toggle
  pub length_field : bit_and (shr t 16) 0x7fff ≡ len
  pub ioc_field : bit_and (shr t 15) 1 ≡ ioc
  pub tries_field : bit_and (shr t 10) 3 ≡ 3
  pub pid_field : bit_and (shr t 8) 3 ≡ pid
  pub status_field : bit_and t 0xff ≡ 0x80

sum_of_fields :
    (toggle len ioc pid : ℕ)
    → toggle < 2
    → len < 2 ^ 15
    → ioc < 2
    → pid < 4
    → token_word toggle len ioc pid
      ≡ toggle * 2 ^ 31 + (len * 2 ^ 16 + (ioc * 2 ^ 15 + (3 * 2 ^ 10 + (pid * 2 ^ 8 + 0x80))))
unfolding token_word
sum_of_fields toggle len ioc pid t l i p = ground (
  arith,
  bit_or-disjoint 8 pid 0x80,
  bit_or-disjoint 10 3 (pid * 2 ^ 8 + 0x80),
  bit_or-disjoint 15 ioc (3 * 2 ^ 10 + (pid * 2 ^ 8 + 0x80)),
  bit_or-disjoint 16 len (ioc * 2 ^ 15 + (3 * 2 ^ 10 + (pid * 2 ^ 8 + 0x80))),
  bit_or-disjoint 31 toggle (len * 2 ^ 16 + (ioc * 2 ^ 15 + (3 * 2 ^ 10 + (pid * 2 ^ 8 + 0x80)))),
)

pub token_word-Fields :
    (toggle len ioc pid : ℕ)
    → toggle < 2
    → len < 2 ^ 15
    → ioc < 2
    → pid < 4
    → Fields (token_word toggle len ioc pid) toggle len ioc pid
token_word-Fields toggle len ioc pid t l i p =
    let w = token_word toggle len ioc pid in
    let sum = sum_of_fields toggle len ioc pid t l i p in
    record {
      toggle_field = omega (arith, sum);
      length_field = omega (arith, sum, bit_and-mask 15 (shr w 16));
      ioc_field = omega (arith, sum, bit_and-mask 1 (shr w 15));
      tries_field = omega (arith, sum, bit_and-mask 2 (shr w 10));
      pid_field = omega (arith, sum, bit_and-mask 2 (shr w 8));
      status_field = omega (arith, sum, bit_and-mask 8 w);
    }

abbrev pub AllStages : (Stage → Type 0) → List Stage → Type 0
AllStages P [] = Unit {0}
AllStages P (x ∷ xs) = P x × AllStages P xs

abbrev pub StageFields : Stage → Type 0
StageFields st = Fields (stage_token st) st.toggle st.length' st.ioc st.pid

bit-lt : (b : Bool) → bit b < 2
bit-lt true = omega arith
bit-lt false = omega arith

-- For a transfer that fits, the token of each of its stages holds the stage's own toggle, length,
-- direction and end signal, three tries and the active bit: no length runs into the toggle above it.
pub stages-Fields :
    (s : Statics) (dev : Device) (pipe addr len : ℕ) (req : Option DevRequest)
    → BufferFits s addr len
    → AllStages StageFields (stages s dev pipe addr len req)
unfolding stages
stages-Fields s dev pipe addr len none fits =
    let t = gettoggle-lt dev (usb_pipeendpoint pipe) (usb_pipeout pipe) in
    (
      token_word-Fields (first_toggle dev pipe none) len 1 (data_pid pipe) t
          (omega (arith, fits.pages)) (omega arith)
          (omega (arith, bit-lt (not (usb_pipein pipe == 0)))),
      tt,
    )
stages-Fields s dev pipe addr len (some req) fits =
    let setup =
      token_word-Fields 0 devrequest_size 0 2 (omega arith) (omega arith) (omega arith)
        (omega arith) in
    let data_fields =
      token_word-Fields 1 len 0 (data_pid pipe) (omega arith) (omega (arith, fits.pages))
        (omega arith) (omega (arith, bit-lt (not (usb_pipein pipe == 0)))) in
    let ack =
      token_word-Fields 1 0 1 (ack_pid pipe) (omega arith) (omega arith) (omega arith)
        (omega (arith, bit-lt (usb_pipein pipe == 0))) in
    elim (Bool-cases (ltb 0 len)) [
      | inl more ↦ rw more (setup, (data_fields, (ack, tt)))
      | inr less ↦ rw less (setup, (ack, tt))
    ]
