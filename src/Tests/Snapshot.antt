-- ===== src/Tests/Snapshot.antt =====
-- app/monitoring/snapshot.py on three listings, of which the last repeats the first one.
use mathlib.Core.List.{Perm}
use mathlib.Core.List.Perm
use Prim.Native.String.{◌++◌ as append}
use crous_apartment_monitori.Monitoring.Fingerprint.{canonical_snapshot-perm, Textual}
use crous_apartment_monitori.Monitoring.Snapshot.{shown_text, canonical_snapshot, Library}
use crous_apartment_monitori.Crous.{CrousListing}
use crous_apartment_monitori.Tests.Searches.{listing}
use crous_apartment_monitori.Common.{String, ◌≡◌, ap, Option, none, some, List, [], ◌∷◌, map, ◌==◌}

-- The title stands for the whole text.
abbrev title_of : Option String → String
title_of none = "null"
title_of (some s) = s

abbrev joined : List String → String
joined [] = ""
joined (s ∷ ss) = append s (joined ss)

abbrev pub library : Library
library = record {
  is_space = λ c. c == 32;
  lower = λ s. s;
  urlsplit = λ s. record { scheme = "https"; netloc = ""; path = s };
  urlunsplit = λ u. u.path;
  dumps = λ m. title_of m.title;
  dumps_list = λ ms. joined (map (λ m. title_of m.title) ms);
  sha256 = λ s. append s "#";
}

abbrev other : CrousListing
other = record listing { external_id = " 41 "; title = "T2" }

abbrev repeated : CrousListing
repeated = record listing { title = "T1  bis" }

abbrev shuffled : Perm (listing ∷ other ∷ repeated ∷ []) (other ∷ listing ∷ repeated ∷ [])
shuffled = Perm.swap other listing (repeated ∷ [])

textual : Textual library
textual ms ns h = ap joined h

canonical_snapshot-perm_example :
    (map (shown_text library) (canonical_snapshot library (listing ∷ other ∷ repeated ∷ [])).0
      ≡ map (shown_text library) (canonical_snapshot library (other ∷ listing ∷ repeated ∷ [])).0)
    × ((canonical_snapshot library (listing ∷ other ∷ repeated ∷ [])).1
        ≡ (canonical_snapshot library (other ∷ listing ∷ repeated ∷ [])).1)
canonical_snapshot-perm_example = canonical_snapshot-perm library textual shuffled
