-- ===== src/Agent/Patterns/Tests.antt =====
-- Examples of the names that the two expressions match.
use logline.Base.{◌≡◌, ◌↔◌, none, some, [], ltb, Text, codes}
use logline.Host.{Host}
use logline.Agent.Markers.{match_waiting, match_done}
use logline.Agent.Patterns.{IsWaiting, match_waiting_iff}
use logline.Agent.Patterns.Done.{IsDone, match_done_iff}

abbrev host : Host
host = record {
  sha1 = λ b. b;
  loads = λ b. none;
  dumps = λ v. [];
  gzip_compress = λ b. b;
  gzip_decompress = λ b. none;
  lzma_decompress = λ b. none;
  zstandard_decompress = none;
  zstd_decompress = none;
  is_decimal = λ c. ltb 47 c;
  resolve = λ p. p;
}

abbrev iso : Text
iso = codes "20260101T000000Z"

abbrev waiting : Text
waiting = codes "foo.log.20260101T000000Z.lh-logrotate-waiting"

match_waiting_iff_example :
    (match_waiting host (codes "foo.log") waiting ≡ some iso)
    ↔ IsWaiting host (codes "foo.log") waiting iso
match_waiting_iff_example = match_waiting_iff host (codes "foo.log") waiting iso

abbrev done : Text
done = codes "foo.log.20260101T000000Z.0123456789abc.xz.gpg.lh-logrotate-uploaded"

match_done_iff_example :
    (match_done host (codes "foo.log") done ≡ some (iso, codes "0123456789abc"))
    ↔ IsDone host (codes "foo.log") done iso (codes "0123456789abc")
match_done_iff_example = match_done_iff host (codes "foo.log") done iso (codes "0123456789abc")
