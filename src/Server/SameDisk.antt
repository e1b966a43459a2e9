-- ===== src/Server/SameDisk.antt =====
-- The relation of worlds with the same disk, which all that only talks and measures keeps.
use logline.Base.{◌≡◌, refl, ◌∙◌, Bool-cases, inl, inr, true}
use logline.Server.World.{Event, World, modify}
use logline.Server.World.Keeps.{IsStable, Keeps}
use logline.Server.Quiet.{IsQuiet}
use logline.Server.Telemetry.{record_event}

-- The disk is the same.
pub record IsSameDisk (u v : World) : Type 0 where
  pub fs : v.fs ≡ u.fs
  pub syncs : v.syncs ≡ u.syncs

pub same : {u v : World} → v.fs ≡ u.fs → v.syncs ≡ u.syncs → IsSameDisk u v
same p q = record { fs = p; syncs = q }

pub IsSameDisk-quiet : IsQuiet IsSameDisk
IsSameDisk-quiet = record {
  stable = record {
    same = λ w. same refl refl;
    compose = λ u v w h k. same (k.fs ∙ h.fs) (k.syncs ∙ h.syncs);
  };
  reading = λ w i k e. same refl refl;
  sending = λ w o. same refl refl;
  measuring = λ w e h on. same refl refl;
}

abbrev pub stable : IsStable IsSameDisk
stable = IsSameDisk-quiet.stable

pub record_event-disk : (e : Event) → Keeps IsSameDisk (record_event e)
unfolding record_event modify
record_event-disk e = record {
  at = λ w. elim (Bool-cases w.metrics_enabled) [
    | inl on ↦ same (simp on) (simp on)
    | inr off ↦ same (simp off) (simp off)
  ];
}

pub close_disk : Keeps IsSameDisk (modify (λ w. record w { closed = true }))
unfolding modify
close_disk = record { at = λ w. same refl refl }
