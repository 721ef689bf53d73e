-- ===== src/Tests/Endings.antt =====
-- Sessions with a client and a picture: what becomes of their frames.
use dracd.Common.{◌++◌, ◌≡◌, refl, [], ◌∷◌}
use dracd.Drac.Video.{Picture, encode_png_ptr, trim, save_frame_for_animation}
use dracd.Frame.{new_frame}
use dracd.Streaming.{Stream, opened, add_picture, Reach, next, pictures}
use dracd.Streaming.Quantized.{quantized_by, freed_by, animation, quantized_freed}
use dracd.Gif.{encode_gif}
use dracd.Gif.Given.{given}
use dracd.Tests.Streams.{no_host, picture, drawn, drawn-Reach, png_frame}

-- A second picture, six seconds after the first.
abbrev later : Picture
later = record picture { qf = 1 }

abbrev redrawn : Stream
redrawn = add_picture drawn later png_frame 6000000001 (λ _. 6000000002)

redrawn-Reach : Reach (opened no_host 0 []) redrawn
unfolding encode_png_ptr new_frame
redrawn-Reach = next drawn-Reach (pictures drawn later png_frame 6000000001 (λ _. 6000000002) refl)

quantized_freed_example :
    (quantized_by redrawn-Reach ≡ freed_by redrawn-Reach ++ animation redrawn)
    × (given (encode_gif 7000000000 redrawn.video.session.animated_frame_list) ≡ animation redrawn)
quantized_freed_example = quantized_freed no_host 0 [] redrawn redrawn-Reach 7000000000

redrawn_animation : animation redrawn ≡ 1 ∷ []
unfolding add_picture save_frame_for_animation trim
redrawn_animation = refl
