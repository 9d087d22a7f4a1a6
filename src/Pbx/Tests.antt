-- ===== src/Pbx/Tests.antt =====
-- Two telephones, at the addresses 1 and 2 with the extensions 0 and 1, on which the operations of
-- pbx.c run, and at which their theorems apply.
use system_fundamentals_ii_c.Prelude.{
  Option, [], arith, false, if◌then◌else◌, inl, inr, ltb, none, pos, refl, some, suc, true, zero, ℕ,
  ℕ_discrete, ◌+◌, ◌==◌, ◌≡◌,
}
use system_fundamentals_ii_c.Pbx.Dial.Validity.{dial_effect}
use system_fundamentals_ii_c.Pbx.Hangup.{hangup_effect}
use system_fundamentals_ii_c.Pbx.Histories.{History, History-IsValid, dial, followed, start}
use system_fundamentals_ii_c.Pbx.Pairing.{IsValid, Mated, mate}
use system_fundamentals_ii_c.Pbx.Pickup.{pickup_effect}
use system_fundamentals_ii_c.Pbx.Registry.{pbx_unregister}
use system_fundamentals_ii_c.Pbx.Registry.Unregister.{dial_unregister_dangles}
use system_fundamentals_ii_c.Pbx.State.{
  Network, Pbx, Tu, TuState, after, connected, dial_tone, on_hook, ring_back, ringing, shows, write,
}
use system_fundamentals_ii_c.Pbx.Units.{tu_dial, tu_hangup, tu_pickup}

abbrev fine : Network
fine log fd c = false

abbrev dead : Network
dead log fd c = true

abbrev phone : ℕ → Option ℕ → TuState → Tu
phone ext buddy st = record { fd = ext + 10; ext = ext; buddy = buddy; state = st }

abbrev exchange : Tu → Tu → Pbx
exchange t u = record {
  tup = 2;
  exiting = false;
  mutex = 1;
  exit_sems = λ e. if ltb e 2 then 0 else 1;
  tus = λ e. if e == 0 then some 1 else if e == 1 then some 2 else none;
  heap = λ x. if x == 1 then some t else if x == 2 then some u else none;
  locks = λ x. if ltb x 3 then 1 else 0;
  log = [];
  closed = [];
}

-- Two units in no call, and two units in one.
abbrev calm : TuState → TuState → Pbx
calm st su = exchange (phone 0 none st) (phone 1 none su)

abbrev call : TuState → TuState → Pbx
call st su = exchange (phone 0 (some 2) st) (phone 1 (some 1) su)

calm-IsValid : (st su : TuState) → mate st ≡ none → mate su ≡ none → IsValid (calm st su)
calm-IsValid st su p q = record {
  pointer = omega arith;
  paired = λ x t h. inl (ground arith);
  placed = λ x e h. ground arith;
  entered = λ e x lt h. ground arith;
  unlocked = λ x e h. ground arith;
  entry_lock = refl;
  exit_free = λ e lt h. ground arith;
  exit_held = λ e x lt h. ground arith;
}

call-IsValid : (st su : TuState) → mate st ≡ some su → mate su ≡ some st → IsValid (call st su)
call-IsValid st su p q = record {
  pointer = omega arith;
  paired = λ x t h. elim (ℕ_discrete x 1) [
    | yes one ↦ inr (2, phone 1 (some 1) su, ground arith)
    | no two ↦ inr (1, phone 0 (some 2) st, ground arith)
  ];
  placed = λ x e h. ground arith;
  entered = λ e x lt h. ground arith;
  unlocked = λ x e h. ground arith;
  entry_lock = refl;
  exit_free = λ e lt h. ground arith;
  exit_held = λ e x lt h. ground arith;
}

rings_test :
    (after (calm dial_tone on_hook) (tu_dial fine 1 (pos 1) (calm dial_tone on_hook))).log
    ≡ write fine 11 (shows ringing) (write fine 10 (shows ring_back) [])
unfolding tu_dial
rings_test = refl

pickup_effect_example :
    (after (call ring_back ringing) (tu_pickup fine 2 (call ring_back ringing))).heap 1
    ≡ some (phone 0 (some 2) connected)
pickup_effect_example =
    pickup_effect fine (call ring_back ringing) 2 (phone 1 (some 1) ringing)
      (call-IsValid ring_back ringing refl refl) refl 1

hangup_effect_example :
    (after (call connected connected) (tu_hangup fine 1 (call connected connected))).heap 2
    ≡ some (phone 1 none dial_tone)
hangup_effect_example =
    hangup_effect fine (call connected connected) 1 (phone 0 (some 2) connected)
      (call-IsValid connected connected refl refl) refl 2

dial_effect_example :
    (after (calm dial_tone on_hook) (tu_dial fine 1 (pos 1) (calm dial_tone on_hook))).heap 2
    ≡ some (phone 1 (some 1) ringing)
dial_effect_example =
    dial_effect fine (calm dial_tone on_hook) 1 1 (phone 0 none dial_tone)
      (calm-IsValid dial_tone on_hook refl refl) refl (omega arith) 2

talking :
    Mated
      (call connected connected).heap
      1
      (phone 0 (some 2) connected)
      2
      (phone 1 (some 1) connected)
talking = ground arith

dial_unregister_dangles_example :
    let s' = after (call connected connected) (tu_dial fine 1 (pos 7) (call connected connected)) in
    ((after s' (pbx_unregister fine (some 1) s')).heap 1 ≡ none)
    × ((after s' (pbx_unregister fine (some 1) s')).heap 2 ≡ some (phone 1 (some 1) connected))
    × ((phone 1 (some 1) connected).buddy ≡ some 1)
dial_unregister_dangles_example =
    dial_unregister_dangles fine (call connected connected) 1 7 2 (phone 0 (some 2) connected)
      (phone 1 (some 1) connected) (call-IsValid connected connected refl refl) refl talking
      (omega arith) refl

abbrev raw : Pbx
raw = record {
  tup = 77;
  exiting = true;
  mutex = 5;
  exit_sems = λ e. e;
  tus = λ e. some e;
  heap = λ x. none;
  locks = λ x. 9;
  log = [];
  closed = [];
}

abbrev vacant : Pbx
vacant = record raw { tup = 0; exiting = false; mutex = 1; exit_sems = λ e. 1; tus = λ e. none }

vacant-IsValid : IsValid vacant
vacant-IsValid = record {
  pointer = omega arith;
  paired = λ x t h. cc;
  placed = λ x e h. cc;
  entered = λ e x lt h. cc;
  unlocked = λ x e h. cc;
  entry_lock = refl;
  exit_free = λ e lt h. refl;
  exit_held = λ e x lt h. cc;
}

dialling :
    History fine
      (calm dial_tone on_hook)
      (after (calm dial_tone on_hook) (tu_dial fine 1 (pos 1) (calm dial_tone on_hook)))
dialling = followed start (dial 1 1 (phone 0 none dial_tone) refl (omega arith) (inl refl))

History-IsValid_example :
    IsValid (after (calm dial_tone on_hook) (tu_dial fine 1 (pos 1) (calm dial_tone on_hook)))
History-IsValid_example = History-IsValid fine dialling (calm-IsValid dial_tone on_hook refl refl)

-- Every extension is taken.
abbrev packed_unit : ℕ → Option Tu
packed_unit zero = none
packed_unit (suc x) = elim (ltb x 1024) [ true ↦ some (phone x none on_hook) | false ↦ none ]

abbrev packed : Pbx
packed = record raw {
  tup = 3;
  exiting = false;
  mutex = 1;
  exit_sems = λ e. 0;
  tus = λ e. if ltb e 1024 then some (e + 1) else none;
  heap = packed_unit;
  locks = λ x. 1;
}

packed-IsValid : IsValid packed
packed-IsValid = record {
  pointer = omega arith;
  paired = λ x t h. inl (ground arith);
  placed = λ x e h. ground arith;
  entered = λ e x lt h. ground arith;
  unlocked = λ x e h. refl;
  entry_lock = refl;
  exit_free = λ e lt h. ground arith;
  exit_held = λ e x lt h. refl;
}
