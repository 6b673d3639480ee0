-- ===== src/Redis/Nodes/Tests.antt =====
-- The slots of a node, printed and parsed.
use samaritan.Strconv.{parse_int, fold_digits}
use samaritan.Prelude.{◌≡◌, refl, List, [], ◌∷◌, map, bytes, bytes_equal, pos, arith}
use samaritan.Prelude.Assoc.{lookup, insert}
use samaritan.Redis.Nodes.Cluster.{
  parse_cluster_nodes, parse_lines, parse_line, fields, attach, attach_one, panics,
}
use samaritan.Redis.Nodes.Segments.{
  parsed, endless, parse_segment, split_by, parse_cluster_nodes_slot,
}
use samaritan.Redis.Nodes.Ranges.{
  Segment, one, range, moving, print, all_slots, parse_slots-printed,
}

abbrev segments : List Segment
segments = one 5 ∷ range 7 9 ∷ moving (bytes "93-<-292f8b365bb7edb5e285caf0b7e6ddc7265d2f4f") ∷ []

served : all_slots segments ≡ pos 5 ∷ pos 7 ∷ pos 8 ∷ pos 9 ∷ []
served = refl

parse_slots-printed_example :
    parse_cluster_nodes_slot (map print segments) ≡ parsed (all_slots segments)
parse_slots-printed_example =
    parse_slots-printed segments (omega arith, ((omega arith, omega arith), (tt, tt)))

-- A range up to the greatest int.
no_end : parse_cluster_nodes_slot (bytes "9223372036854775806-9223372036854775807" ∷ []) ≡ endless
unfolding parse_cluster_nodes_slot parse_segment split_by parse_int fold_digits
no_end = refl

-- A replica whose master is in no line.
orphan :
    parse_cluster_nodes
      (λ m. bytes "r" ∷ [])
      (bytes "r 10.0.0.1:6379@16379 slave gone 0 0 1 connected")
    ≡ panics
unfolding parse_cluster_nodes parse_lines parse_line fields split_by attach attach_one lookup insert
    bytes_equal
orphan = refl
