-- ===== src/Redis/Slot/Tests.antt =====
-- Keys and their slots, and the theorems on slots at them.
use samaritan.Prelude.{◌%◌, ◌<◌, ◌≡◌, ◌≢◌, refl, [], bytes, arith}
use samaritan.Redis.Slot.Crc.{crc16, slot_num}
use samaritan.Redis.Slot.Hashtag.{hashtag, slot_of}
use samaritan.Redis.Slot.Tags.{hashtag_by_shape}
use samaritan.Redis.Slot.Table.{remainder, crc16-eq-remainder, slot_of-in_range}

-- The check value of this CRC.
check_value : crc16 (bytes "123456789") ≡ 0x31c3
unfolding crc16
check_value = refl

same_slot : slot_of (bytes "{user1000}.following") ≡ slot_of (bytes "{user1000}.followers")
unfolding slot_of hashtag crc16
same_slot = refl

hashtag_by_shape_example :
    (bytes "{bar" ≢ [] → hashtag (bytes "foo{{bar}}zap") ≡ bytes "{bar")
    × (hashtag (bytes "foo") ≡ bytes "foo")
    × (hashtag (bytes "foo{{bar") ≡ bytes "foo{{bar")
    × (hashtag (bytes "foo{}}zap") ≡ bytes "foo{}}zap")
hashtag_by_shape_example =
    hashtag_by_shape (bytes "foo") (bytes "{bar") (bytes "}zap") (ground arith) (ground arith)

crc16-eq-remainder_example : crc16 (bytes "foo") ≡ remainder 0 (bytes "foo")
crc16-eq-remainder_example = crc16-eq-remainder (bytes "foo") (ground arith)

slot_of-in_range_example :
    (slot_of (bytes "foo") ≡ crc16 (hashtag (bytes "foo")) % slot_num)
    × (slot_of (bytes "foo") < slot_num)
slot_of-in_range_example = slot_of-in_range (bytes "foo")
