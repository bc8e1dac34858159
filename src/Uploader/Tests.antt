-- ===== src/Uploader/Tests.antt =====
-- Three records in memory and a server that takes two bytes at a time, and the theorems at them.
use i_mx6ull_water_qualit.Base.{
  ℕ, ◌+◌, ◌<◌, ◌≡◌, refl, arith, Bool, true, false, List, [], ◌∷◌, ◌++◌, none, some, length, take,
  min,
}
use i_mx6ull_water_qualit.Base.Int.{pos}
use i_mx6ull_water_qualit.Sample.{Sample}
use i_mx6ull_water_qualit.Database.{Row}
use i_mx6ull_water_qualit.Database.Memory.{memory, memory-Documented, memory-Works}
use i_mx6ull_water_qualit.Uploader.{
  Network, Upload, json_size, uploader_build_json, send_loop, uploader_send_line, send_row,
  upload_row, upload_rows,
}
use i_mx6ull_water_qualit.Uploader.Json.{json_line}
use i_mx6ull_water_qualit.Uploader.Fits.{Prints, line_text, upload_row_fits}
use i_mx6ull_water_qualit.Base.Decimal.{digits_text, unsigned_text, signed_text}
use i_mx6ull_water_qualit.Uploader.Send.{Sends, LineSent, send_line_exact}
use i_mx6ull_water_qualit.Uploader.Batch.{BatchCase, upload_rows_exact}
use i_mx6ull_water_qualit.Uploader.Thread.{uploader_connect}

abbrev sample : ℕ → Sample ℕ
sample sequence = record {
  timestamp_ms = pos 5;
  ph = 700;
  temperature = 2500;
  turbidity = 300;
  conductivity = 80000;
  sensor_status = 0;
  alarm_status = 0;
  sequence = sequence;
}

abbrev row : ℕ → Bool → ℕ → Row ℕ
row id uploaded upload_retry = record {
  id = id;
  device_id = [];
  sample = sample (id + 10);
  uploaded = uploaded;
  upload_retry = upload_retry;
}

abbrev table : List (Row ℕ)
table = row 1 false 0 ∷ row 2 true 0 ∷ row 3 false 2 ∷ []

-- "%.2f" prints a zero.
abbrev server : Network (List ℕ) ℕ
server = record {
  send = λ wire bytes. (pos (min 2 (length bytes)), wire ++ take (min 2 (length bytes)) bytes);
  print_fixed = λ x. 48 ∷ [];
  truncate = λ x. pos x;
  prints = λ text. true;
}

server-Sends : Sends server (λ wire. wire)
server-Sends = record { at_most = λ wire bytes. omega arith; goes_out = λ wire bytes. refl }

server-Prints : Prints server
server-Prints = record { fixed_length = λ x. omega arith; succeeds = λ text. refl }

abbrev start : Upload (List (Row ℕ)) (List ℕ)
start = record { db = table; socket = []; uploaded_count = 0; failed_count = 0 }

line_in_parts :
    uploader_send_line server [] (1 ∷ 2 ∷ 3 ∷ 4 ∷ 5 ∷ []) 5 ≡ (pos 0, 1 ∷ 2 ∷ 3 ∷ 4 ∷ 5 ∷ [])
unfolding uploader_send_line send_loop
line_in_parts = refl

connect_refused :
    uploader_connect {W = ℕ} (record { opened = some 3; parsed = true; connected = false })
    ≡ (none, some 3)
unfolding uploader_connect
connect_refused = refl

send_line_exact_example :
    LineSent server
      (λ wire. wire)
      server-Sends
      []
      (1 ∷ 2 ∷ 3 ∷ [])
      3
      (uploader_send_line server [] (1 ∷ 2 ∷ 3 ∷ []) 3)
send_line_exact_example = send_line_exact server (λ wire. wire) server-Sends [] (1 ∷ 2 ∷ 3 ∷ []) 3

upload_rows_exact_example :
    BatchCase memory server []
      (λ rows. rows)
      memory-Documented
      memory-Works
      (λ wire. wire)
      server-Sends
      (row 1 false 0 ∷ row 3 false 2 ∷ [])
      start
      (upload_rows memory server [] (row 1 false 0 ∷ row 3 false 2 ∷ []) start)
upload_rows_exact_example =
    upload_rows_exact memory server [] (λ rows. rows) memory-Documented memory-Works (λ wire. wire)
      server-Sends (row 1 false 0 ∷ row 3 false 2 ∷ []) start

-- "w1", and the line of its first sample
abbrev device : List ℕ
device = 119 ∷ 49 ∷ []

upload_row_fits_example :
    let text = line_text server server-Prints device (omega arith) (sample 11) in
    (uploader_build_json server device (sample 11) json_size ≡ (pos (length text), text))
    × (length text < json_size)
    × (upload_row memory server device (row 1 false 0) start
        ≡ send_row memory server device (pos (length text), text) (row 1 false 0) start)
upload_row_fits_example =
    upload_row_fits server server-Prints device (omega arith) memory (row 1 false 0) start

-- {"device_id":"w1","timestamp_ms":5,"ph":0,"temperature":0,"turbidity":0,"conductivity":80000,
-- "sensor_status":0,"alarm_status":0,"sequence":11} and a newline
json_text_11 : uploader_build_json server device (sample 11) json_size ≡ (
  pos 143,
  123 ∷ 34 ∷ 100 ∷ 101 ∷ 118 ∷ 105 ∷ 99 ∷ 101 ∷ 95 ∷ 105 ∷ 100 ∷ 34 ∷ 58 ∷ 34 ∷ 119 ∷ 49 ∷ 34 ∷ 44
      ∷ 34 ∷ 116 ∷ 105 ∷ 109 ∷ 101 ∷ 115 ∷ 116 ∷ 97 ∷ 109 ∷ 112 ∷ 95 ∷ 109 ∷ 115 ∷ 34 ∷ 58 ∷ 53 ∷ 44
      ∷ 34 ∷ 112 ∷ 104 ∷ 34 ∷ 58 ∷ 48 ∷ 44 ∷ 34 ∷ 116 ∷ 101 ∷ 109 ∷ 112 ∷ 101 ∷ 114 ∷ 97 ∷ 116 ∷ 117
      ∷ 114 ∷ 101 ∷ 34 ∷ 58 ∷ 48 ∷ 44 ∷ 34 ∷ 116 ∷ 117 ∷ 114 ∷ 98 ∷ 105 ∷ 100 ∷ 105 ∷ 116 ∷ 121 ∷ 34
      ∷ 58 ∷ 48 ∷ 44 ∷ 34 ∷ 99 ∷ 111 ∷ 110 ∷ 100 ∷ 117 ∷ 99 ∷ 116 ∷ 105 ∷ 118 ∷ 105 ∷ 116 ∷ 121 ∷ 34
      ∷ 58 ∷ 56 ∷ 48 ∷ 48 ∷ 48 ∷ 48 ∷ 44 ∷ 34 ∷ 115 ∷ 101 ∷ 110 ∷ 115 ∷ 111 ∷ 114 ∷ 95 ∷ 115 ∷ 116
      ∷ 97 ∷ 116 ∷ 117 ∷ 115 ∷ 34 ∷ 58 ∷ 48 ∷ 44 ∷ 34 ∷ 97 ∷ 108 ∷ 97 ∷ 114 ∷ 109 ∷ 95 ∷ 115 ∷ 116
      ∷ 97 ∷ 116 ∷ 117 ∷ 115 ∷ 34 ∷ 58 ∷ 48 ∷ 44 ∷ 34 ∷ 115 ∷ 101 ∷ 113 ∷ 117 ∷ 101 ∷ 110 ∷ 99 ∷ 101
      ∷ 34 ∷ 58 ∷ 49 ∷ 49 ∷ 125 ∷ 10 ∷ [],
)
unfolding uploader_build_json json_line signed_text unsigned_text digits_text
json_text_11 = refl
