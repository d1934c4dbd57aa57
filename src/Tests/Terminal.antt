-- ===== src/Tests/Terminal.antt =====
-- Tests of the rings and the console.
use hios.Base.{◌≡◌, arith, ◌==◌, if◌then◌else◌, none, []}
use hios.Tty.{Queue}
use hios.Tty.Ring.{IsRing, contents}
use hios.Console.{Console, video_putchar, con_write}
use hios.Console.Screen.{IsOnScreen, Inside}
use hios.Console.Write.{Synced, video_putchar-IsOnScreen, print_all, con_write-print_all}

-- Two characters, around the end of the array.
abbrev ring : Queue
ring = record { buf = λ i. if i == 1023 then 65 else 66; wait_proc = none; head = 1; tail = 1023 }

ring-IsRing : IsRing ring
ring-IsRing = record { head = omega arith; tail = omega arith }

abbrev console : Console
console = record { video_x = 79; video_y = 24; video = λ a. 0; register = λ r. 0 }

console-IsOnScreen : IsOnScreen console
console-IsOnScreen = record { column = omega arith; row = omega arith }

video_putchar-IsOnScreen_example :
    IsOnScreen (video_putchar 65 console)
    × Inside console (video_putchar 65 console)
    × Synced (video_putchar 65 console)
video_putchar-IsOnScreen_example = video_putchar-IsOnScreen 65 console console-IsOnScreen

-- The last cell of the screen.
con_write-print_all_example :
    (q' : Queue) × (con_write (ring, console) ≡ (q', print_all (contents ring) console))
    × (contents q' ≡ [])
con_write-print_all_example = con_write-print_all ring console ring-IsRing
