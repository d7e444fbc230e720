-- ===== src/System/Runs/Sent.antt =====
-- The frames of the callbacks of `My_diffbotSystemHardware` in any order.
use my_diffbot.Common.{List, Option}
use my_diffbot.Double.{Double}
use my_diffbot.System.Runs.Line.{Session}
use my_diffbot.System.Runs.Told.{Told}
