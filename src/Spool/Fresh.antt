-- ===== src/Spool/Fresh.antt =====
-- A spool of src/spool.cpp on a directory without segments, and its first record.
use nano_sensor.Base.{ℕ, ◌<◌, ◌≡◌, refl, ap, ◌∙◌, inl, true, none, List, [], ◌∷◌, arith}
use nano_sensor.Text.{Bytes}
use nano_sensor.Spool.Codec.{Fits}
use nano_sensor.Spool.Reading.{encode}
use nano_sensor.Spool.Queue.{front, Config, Spool, Disk, Outcome, roll, append, file_size}
use nano_sensor.Spool.Opening.{open_spool, load_state, scan_segments, sort, entry_ids, reset_cursor}
use nano_sensor.Spool.Append.{grow}
use nano_sensor.Spool.Invariant.{HasNewest, encode_one}
use nano_sensor.Spool.Accept.{
  AppendedWhole, accept-AppendedWhole, rolled-AppendedWhole, append_accepts, dest,
}

-- There is no segment, in the object or on disk, and the cursor is at the start of segment 1.
pub record IsNew (s : Spool) (d : Disk) : Type 0 where
  pub is_open : s.is_open ≡ true
  pub segments : s.segments ≡ []
  pub cursor : s.read_segment ≡ 1
  pub offset : s.read_offset ≡ 0
  pub files : (j : ℕ) → d.file j ≡ none
  pub some_room : 0 < s.cfg.segment_bytes

new_cursor :
    (s : Spool) (d : Disk) → s.segments ≡ [] → d.state ≡ none → load_state s d ≡ reset_cursor s
unfolding load_state
new_cursor s d empty state = rw (state, empty) refl

pub open_spool-IsNew :
    (out : Outcome) (names : List Bytes) (cfg : Config) (s : Spool) (d : Disk)
    → out.create_ok ≡ true
    → out.scan_ok ≡ true
    → entry_ids names ≡ []
    → ((j : ℕ) → d.file j ≡ none)
    → d.state ≡ none
    → 0 < cfg.segment_bytes
    → ((open_spool out names cfg s d).0 ≡ none)
      × IsNew (open_spool out names cfg s d).1 (open_spool out names cfg s d).2
unfolding open_spool scan_segments sort
open_spool-IsNew out names cfg s d created scanned empty files state room =
    let scan = scan_segments names (record s { cfg = cfg }) in
    rw (created, scanned, new_cursor scan d (ap sort empty) state)
      (
        refl,
        record {
          is_open = refl;
          segments = ap sort empty;
          cursor = ap (λ (js : List ℕ). front 1 (sort js)) empty;
          offset = refl;
          files = files;
          some_room = room;
        },
      )

-- The first record goes to segment 1.
roll_new : (s : Spool) (d : Disk) → IsNew s d → roll s d ≡ 1 ∷ []
unfolding roll file_size
roll_new s d h = ground (arith, h.segments, h.files 1, h.some_room)

first-HasNewest :
    (s : Spool) (d : Disk) (p : Bytes)
    → IsNew s d
    → Fits p
    → HasNewest Unit (record s { segments = 1 ∷ [] }) (grow d 1 p) (p ∷ [])
first-HasNewest s d p h hp = (
  record {
    id = 1;
    done = [];
    todo = p ∷ [];
    tail = [];
    gs = [];
    laid = record {
      segments = refl;
      cursor = h.cursor;
      offset = h.offset ∙ (unfold encode in refl);
      file = ground (arith, h.files 1, encode_one p);
      is_tail = inl refl;
      fits = (hp, tt);
      chain = tt;
    };
    queue = refl;
    clean = refl;
    fresh = λ j above. ground (arith, h.files j);
  },
  omega arith,
  λ w. record { untorn = refl; segments = tt },
)

-- The first append leaves a queue of whole segments.
pub append-new :
    (out : Outcome) (s : Spool) (d : Disk) (p : Bytes)
    → IsNew s d
    → Fits p
    → out.segment_opens ≡ true
    → out.segment_cut ≡ none
    → AppendedWhole Unit [] p s ((append out p s d).1, (append out p s d).2)
append-new out s d p h hp opens whole =
    rw (append_accepts out s d p h.is_open hp opens whole, roll_new s d h, dest out 1 p d whole)
      (rolled-AppendedWhole s (1 ∷ []) p [] _ (
        accept-AppendedWhole out (record s { segments = 1 ∷ [] }) (grow d 1 p) p []
          (first-HasNewest s d p h hp) (omega arith)))
