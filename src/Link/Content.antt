-- ===== src/Link/Content.antt =====
-- The relation of worlds with the same bytes in every inode, whatever their names are.
use logline.Base.{◌≡◌, refl, ap, ◌∙◌}
use logline.Fs.{Fs}
use logline.Server.World.{World}
use logline.Server.World.Keeps.{IsStable}
use logline.Server.Quiet.{IsQuiet}
use logline.Server.SameDisk.{IsSameDisk}

pub record IsSameContent (u v : World) : Type 0 where
  pub content : v.fs.content ≡ u.fs.content

pub same_content : {u v : World} → v.fs.content ≡ u.fs.content → IsSameContent u v
same_content p = record { content = p }

pub IsSameContent-quiet : IsQuiet IsSameContent
IsSameContent-quiet = record {
  stable = record {
    same = λ w. same_content refl;
    compose = λ u v w h k. same_content (k.content ∙ h.content);
  };
  reading = λ w i k e. same_content refl;
  sending = λ w o. same_content refl;
  measuring = λ w e h on. same_content refl;
}

abbrev pub stable : IsStable IsSameContent
stable = IsSameContent-quiet.stable

pub content_of_disk : {u v : World} → IsSameDisk u v → v.fs.content ≡ u.fs.content
content_of_disk d = ap (λ (fs : Fs). fs.content) d.fs
