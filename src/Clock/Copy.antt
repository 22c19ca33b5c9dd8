-- ===== src/Clock/Copy.antt =====
-- What a copy of a date and time keeps, and what the fuse does to the seconds since 1970.
use acionna.Prelude.{◌≡◌, refl, arith}
use acionna.Clock.{DateTime, TimeFormat, unix_time, get_hour, copy_date, copy_time, copy_date_time}

-- The seconds since 1970 of a copy, from an object of the 24-hour format, are the ones of the source
-- counted with the fuse that the target had before.
unix_time-copy_date_time :
    (d target : DateTime)
    → d.time_format ≡ TimeFormat.h24
    → unix_time (copy_date_time d target) ≡ unix_time (record d { fuse_sec = target.fuse_sec })
unfolding unix_time copy_date_time copy_time copy_date get_hour
unix_time-copy_date_time d target e = rw e refl

-- In the 12-hour format a copy shows the hour that the source shows.
get_hour-copy_date_time : (d target : DateTime) → get_hour (copy_date_time d target) ≡ get_hour d
unfolding copy_date_time copy_time copy_date get_hour
get_hour-copy_date_time d target = ground arith
