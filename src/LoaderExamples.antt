-- ===== src/LoaderExamples.antt =====
-- Runs of a direct path load, over an OCI that does all that it is asked.
use oraduck.OciCalls.{Status, Oci}
use oraduck.Stateful.Inversion.{Returned}
use oraduck.DirectPathLoader.{Loader, convert_and_load, destroy, loader_calls}
use oraduck.DirectPathLoader.Ends.{Closed, Use, after_uses}
use oraduck.ColumnPlan.{DirPathColumnSpec}
use oraduck.DirectPathLoader.Open.{new_loader, open_loader, open_calls}
use oraduck.DirectPathLoader.Open.Opened.{load-Closed}
use oraduck.DirectPathLoader.Rows.{total, convert_and_load-Converts}
use oraduck.Prelude.{◌+◌, ◌≡◌, refl, Bool, true, false, List, [], ◌∷◌, arith, codes}

abbrev willing : Oci
willing trace call = record {
  status = Status.success;
  number = 0;
  text = [];
  code = 0;
  row = (0, 0, 0);
}

abbrev opened : Loader
opened = record {
  options = record {
    stream_buffer_bytes = 4194304;
    column_array_rows = 2048;
    parallel = true;
    skip_index_maintenance = false;
    accumulate_stream = false;
    force_entry_set = false;
  };
  owner = codes "HR";
  table = codes "EMP";
  column_names = codes "ID" ∷ [];
  date_formats = [] ∷ [];
  ctx = true;
  ca = true;
  stream = true;
  row_capacity = 2048;
  column_count = 1;
  contiguous = false;
  entries = [];
  is_done = false;
  stream_pending = false;
  rows_in_stream = 0;
  rows_loaded = 0;
  trace = [];
}

abbrev two_batches : List Use
two_batches = Use.load_rows 2 ∷ Use.load_rows 1 ∷ Use.finish_it ∷ Use.finish_it ∷ Use.abort_it ∷ []

abbrev id_column : List DirPathColumnSpec
id_column = record { name = codes "ID"; external_type = 2; max_size = 22; date_format = [] } ∷ []

abbrev constructed : Loader
constructed =
    (open_loader willing id_column
      (new_loader (codes "HR") (codes "EMP") id_column opened.options)).1

open_run :
    Returned
      (open_loader willing id_column)
      (new_loader (codes "HR") (codes "EMP") id_column opened.options)
      tt
      constructed
unfolding open_calls
open_run = refl

load-Closed_example : Closed ((destroy willing (after_uses willing two_batches constructed)).1)
load-Closed_example =
    load-Closed willing (codes "HR") (codes "EMP") id_column opened.options two_batches open_run

abbrev loaded : Loader
loaded = (convert_and_load willing 5 opened).1

five_run : Returned (convert_and_load willing 5) opened true loaded
unfolding loader_calls
five_run = refl

convert_and_load-Converts_example : (◌≡◌ {A = Bool} true true) × (total loaded ≡ total opened + 5)
convert_and_load-Converts_example =
    convert_and_load-Converts willing (λ before n offset reply. omega arith) 5 (omega arith) opened
      (omega arith) five_run
