-- ===== src/Time/Tests.antt =====
-- Examples for `__offtime`, `gmtime` and `timegm` of libs/src/libc/time.c.
use cibyl.Base.{◌≡◌, refl, some, ◌>>=◌, arith}
use cibyl.Base.Int.{unsigned, pos, negsuc, ◌+ℤ◌, ◌-ℤ◌}
use cibyl.Time.{offtime, gmtime, localtime, timegm, no_time}
use cibyl.Time.Broken.{Breaks, offtime-Breaks}
use cibyl.Time.Seconds.{timegm-offtime}

-- 2004-02-29 12:00:00, an hour east of UTC.
offtime-Breaks_example :
    Breaks (pos 1078052400 +ℤ pos 3600) no_time (offtime (pos 1078052400) (pos 3600) no_time)
unfolding ◌+ℤ◌
offtime-Breaks_example =
    offtime-Breaks (pos 1078052400) (pos 3600) no_time (omega arith) (omega arith)

-- A second before 1970, two hours west of UTC.
timegm-offtime_example :
    (offtime (negsuc 0) (negsuc 7199) no_time >>= λ tm. some (timegm tm))
    ≡ some (unsigned (negsuc 0 +ℤ negsuc 7199))
unfolding ◌+ℤ◌
timegm-offtime_example = timegm-offtime (negsuc 0) (negsuc 7199) no_time (omega arith) (omega arith)

-- The last second that 32 bits hold is on a Tuesday, the 19th of January 2038, at 3:14:07.
gmtime_last :
    gmtime (pos 2147483647)
    ≡ some (record {
      tm_sec = pos 7;
      tm_min = pos 14;
      tm_hour = pos 3;
      tm_mday = pos 19;
      tm_mon = pos 0;
      tm_year = pos 138;
      tm_wday = pos 2;
      tm_yday = pos 18;
      tm_isdst = pos 0;
    })
unfolding gmtime ◌+ℤ◌ ◌-ℤ◌
gmtime_last = refl

-- In a zone one hour east of Greenwich, whose raw offset is 3600000 milliseconds, the start of 1970
-- is taken for a day of 1963.
localtime_east :
    localtime (pos 3600000) (pos 0) (pos 0)
    ≡ some (record {
      tm_sec = pos 0;
      tm_min = pos 0;
      tm_hour = pos 0;
      tm_mday = pos 27;
      tm_mon = pos 1;
      tm_year = pos 63;
      tm_wday = pos 3;
      tm_yday = pos 57;
      tm_isdst = pos 0;
    })
unfolding localtime ◌+ℤ◌ ◌-ℤ◌
localtime_east = refl
