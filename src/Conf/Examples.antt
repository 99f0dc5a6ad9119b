-- ===== src/Conf/Examples.antt =====
-- Tests and instances for app/mgx_conf.cpp.
use my_gx.Base.{ℕ, List, [], ◌∷◌, ◌++◌, true, none, some, codes, ◌≡◌, ◌≢◌, refl, arith}
use my_gx.Conf.{pos, get_int, negsuc, load, get_string, is_comment, first_char, stoi}
use my_gx.Conf.Trim.{skip, unskip}
use my_gx.Conf.Load.{
  Item, blank_line, comment, entry, write_items, put_items, IsItem, load-write_items,
}
use my_gx.Printf.{digits_loop, number_digits}
use my_gx.Conf.Lookup.{get_string-put, get_int-number_digits}

abbrev text : List ℕ
text = codes "[Net]\n" ++ codes " Heartbeat =1 \n# x=2\n\nHeartWaitTime = 5"

loaded :
    load (some text) []
    ≡ (true, (codes "HeartWaitTime", codes "5") ∷ (codes "Heartbeat", codes "1") ∷ [])
unfolding load
loaded = refl

-- A line without '=' is a key with an empty value.
bare_key : load (some (codes "Daemon")) [] ≡ (true, (codes "Daemon", []) ∷ [])
unfolding load
bare_key = refl

negative : stoi (codes " -12x") ≡ some (negsuc 11)
unfolding stoi
negative = refl

no_number : stoi (codes "x") ≡ none
unfolding stoi
no_number = refl

abbrev items : List Item
items = comment 1 (codes "#x") ∷ blank_line ∷ entry 1 (codes "Daemon") 2 0 (codes "1") 3 ∷ []

load-write_items_example :
    load (some (write_items items)) [] ≡ (true, (codes "Daemon", codes "1") ∷ [])
unfolding put_items IsItem is_comment first_char skip unskip
load-write_items_example = load-write_items items [] (
  (refl, (refl, (refl, tt))),
  (
    tt,
    (
      (
        record {
          nonempty = omega arith;
          trimmed = record { front = refl; back = refl };
          no_comment = refl;
          no_equals = (refl, (refl, (refl, (refl, (refl, (refl, tt))))));
          one_line = (refl, (refl, (refl, (refl, (refl, (refl, tt))))));
        },
        record { front = refl; back = refl },
        (refl, tt),
      ),
      tt,
    ),
  ),
)

no_key : [] ≢ codes "b"
no_key e = cc

get_string-put_example :
    (get_string (codes "b") [] ((codes "b", codes "1") ∷ []) ≡ codes "1")
    × (get_string [] [] ((codes "b", codes "1") ∷ []) ≡ [])
unfolding get_string
get_string-put_example = get_string-put (codes "b") [] [] (codes "1") [] no_key

get_int-number_digits_example :
    get_int (codes "Port") (pos 1) ((codes "Port", codes "8181") ∷ []) ≡ some (pos 8181)
unfolding number_digits digits_loop
get_int-number_digits_example = get_int-number_digits (codes "Port") 8181 (pos 1) [] (omega arith)
