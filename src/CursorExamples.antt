-- ===== src/CursorExamples.antt =====
-- Runs of a cursor with one CLOB column of one row.
use oraduck.Oci.{sqlt_clob}
use oraduck.Stateful.{done}
use oraduck.Prelude.Int.{pos}
use oraduck.FetchCursor.{Column, FetchCursor, CursorApi, LobValue, read_pieces, fetch}
use oraduck.FetchCursor.Fetch.{IsSound, fetch-IsSound}
use oraduck.FetchCursor.Lobs.{Reads, read_pieces-Reads}
use oraduck.Prelude.{◌^◌, refl, true, false, [], ◌∷◌, arith, replicate, codes}

abbrev clob_column : Column
clob_column = record {
  name = codes "NOTE";
  dty = sqlt_clob;
  lob = true;
  ind = pos 0 ∷ [];
  rcode = 0 ∷ [];
  lob_values = [];
}

-- A value of three characters, of one byte each.
abbrev small_api : CursorApi
small_api = record {
  fetch_rows = λ batches n columns. done (true, columns);
  rows_fetched = λ batches. done 1;
  lob_length = λ column row. done 3;
  lob_read = λ column row bytes chars offset room. done (replicate chars b'x', chars);
  memory = 2 ^ 40;
}

abbrev small_cursor : FetchCursor
small_cursor = record {
  columns = clob_column ∷ [];
  budget = 67108864;
  row_bytes = 12288;
  max_rows = 5461;
  next_rows = 8;
  lob_read_chunk = 2;
  is_done = false;
  has_lobs = true;
  lob_data = [];
  lob_capacity = 65536;
  batches = 0;
}

fetch-IsSound_example : IsSound (2 ^ 40) 5461 ((fetch small_api small_cursor).1)
fetch-IsSound_example =
    fetch-IsSound small_api 5461 (omega arith) (omega arith) (omega arith) small_cursor (record {
      written = omega arith;
      within = omega arith;
      most_rows = refl;
      some_rows = omega arith;
      few_rows = omega arith;
    })

abbrev note_value : LobValue
note_value = record {
  column = 0;
  row = 0;
  name = codes "NOTE";
  characters = true;
  total = 3;
  capacity = 12;
}

read_pieces-Reads_example : Reads note_value [] (read_pieces small_api 2 note_value 3 0 [])
read_pieces-Reads_example =
    read_pieces-Reads small_api 2 note_value 3 0 [] (omega arith) (omega arith)
