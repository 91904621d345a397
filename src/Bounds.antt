-- ===== src/Bounds.antt =====
-- The two pinned tables of bucket bounds of src/bucket.rs, in nanoseconds. They stay shut; the
-- modules that check them by evaluation unfold them.
use tracegrams.Prelude.{◌∷◌, List, [], ℕ}

-- `BUCKETS` and `CALIBRATION_BUCKETS`
abbrev pub buckets : ℕ
buckets = 64

abbrev pub calibration_buckets : ℕ
calibration_buckets = 250

-- `DEFAULT_BOUNDS`
unfoldable pub default_bounds : List ℕ
default_bounds =
    100 ∷ 135 ∷ 181 ∷ 244 ∷ 328 ∷ 442 ∷ 595 ∷ 800 ∷ 1_077 ∷ 1_450 ∷ 1_951 ∷ 2_626 ∷ 3_535 ∷ 4_758
    ∷ 6_404 ∷ 8_620 ∷ 11_602 ∷ 15_615 ∷ 21_017 ∷ 28_289 ∷ 38_075 ∷ 51_248 ∷ 68_978 ∷ 92_841
    ∷ 124_961 ∷ 168_192 ∷ 226_380 ∷ 304_699 ∷ 410_113 ∷ 551_995 ∷ 742_964 ∷ 1_000_000 ∷ 1_345_960
    ∷ 1_811_609 ∷ 2_438_354 ∷ 3_281_928 ∷ 4_417_345 ∷ 5_945_571 ∷ 8_002_502 ∷ 10_771_051
    ∷ 14_497_407 ∷ 19_512_934 ∷ 26_263_635 ∷ 35_349_811 ∷ 47_579_443 ∷ 64_040_043 ∷ 86_195_357
    ∷ 116_015_530 ∷ 156_152_301 ∷ 210_174_801 ∷ 282_886_943 ∷ 380_754_602 ∷ 512_480_588
    ∷ 689_778_538 ∷ 928_414_545 ∷ 1_249_609_141 ∷ 1_681_924_325 ∷ 2_263_803_410 ∷ 3_046_989_571
    ∷ 4_101_127_071 ∷ 5_519_954_321 ∷ 7_429_639_508 ∷ 10_000_000_000 ∷ []

-- `CALIBRATION_BOUNDS`
unfoldable pub calibration_bounds : List ℕ
calibration_bounds =
    100 ∷ 108 ∷ 116 ∷ 125 ∷ 135 ∷ 145 ∷ 156 ∷ 168 ∷ 181 ∷ 195 ∷ 210 ∷ 226 ∷ 244 ∷ 263 ∷ 283 ∷ 305
    ∷ 328 ∷ 353 ∷ 381 ∷ 410 ∷ 442 ∷ 476 ∷ 513 ∷ 552 ∷ 595 ∷ 641 ∷ 690 ∷ 743 ∷ 800 ∷ 862 ∷ 928
    ∷ 1_000 ∷ 1_077 ∷ 1_160 ∷ 1_250 ∷ 1_346 ∷ 1_450 ∷ 1_562 ∷ 1_682 ∷ 1_811 ∷ 1_951 ∷ 2_101 ∷ 2_263
    ∷ 2_438 ∷ 2_626 ∷ 2_829 ∷ 3_047 ∷ 3_282 ∷ 3_535 ∷ 3_808 ∷ 4_101 ∷ 4_417 ∷ 4_758 ∷ 5_125 ∷ 5_520
    ∷ 5_946 ∷ 6_404 ∷ 6_898 ∷ 7_430 ∷ 8_003 ∷ 8_620 ∷ 9_285 ∷ 10_000 ∷ 10_772 ∷ 11_602 ∷ 12_496
    ∷ 13_460 ∷ 14_497 ∷ 15_615 ∷ 16_819 ∷ 18_116 ∷ 19_513 ∷ 21_017 ∷ 22_638 ∷ 24_383 ∷ 26_264
    ∷ 28_289 ∷ 30_470 ∷ 32_819 ∷ 35_350 ∷ 38_075 ∷ 41_011 ∷ 44_173 ∷ 47_579 ∷ 51_248 ∷ 55_200
    ∷ 59_456 ∷ 64_040 ∷ 68_978 ∷ 74_296 ∷ 80_025 ∷ 86_195 ∷ 92_841 ∷ 100_000 ∷ 107_710 ∷ 116_015
    ∷ 124_961 ∷ 134_596 ∷ 144_974 ∷ 156_152 ∷ 168_192 ∷ 181_161 ∷ 195_129 ∷ 210_174 ∷ 226_380
    ∷ 243_835 ∷ 262_636 ∷ 282_887 ∷ 304_699 ∷ 328_193 ∷ 353_498 ∷ 380_755 ∷ 410_113 ∷ 441_735
    ∷ 475_794 ∷ 512_480 ∷ 551_995 ∷ 594_557 ∷ 640_400 ∷ 689_778 ∷ 742_964 ∷ 800_250 ∷ 861_954
    ∷ 928_415 ∷ 1_000_000 ∷ 1_077_105 ∷ 1_160_155 ∷ 1_249_609 ∷ 1_345_960 ∷ 1_449_740 ∷ 1_561_523
    ∷ 1_681_924 ∷ 1_811_609 ∷ 1_951_293 ∷ 2_101_748 ∷ 2_263_803 ∷ 2_438_354 ∷ 2_626_363 ∷ 2_828_869
    ∷ 3_046_990 ∷ 3_281_928 ∷ 3_534_981 ∷ 3_807_546 ∷ 4_101_127 ∷ 4_417_345 ∷ 4_757_945 ∷ 5_124_806
    ∷ 5_519_955 ∷ 5_945_571 ∷ 6_404_004 ∷ 6_897_785 ∷ 7_429_639 ∷ 8_002_502 ∷ 8_619_536 ∷ 9_284_145
    ∷ 10_000_000 ∷ 10_771_051 ∷ 11_601_553 ∷ 12_496_092 ∷ 13_459_604 ∷ 14_497_407 ∷ 15_615_230
    ∷ 16_819_243 ∷ 18_116_092 ∷ 19_512_934 ∷ 21_017_480 ∷ 22_638_034 ∷ 24_383_541 ∷ 26_263_635
    ∷ 28_288_694 ∷ 30_469_896 ∷ 32_819_279 ∷ 35_349_811 ∷ 38_075_460 ∷ 41_011_271 ∷ 44_173_447
    ∷ 47_579_443 ∷ 51_248_059 ∷ 55_199_543 ∷ 59_455_707 ∷ 64_040_043 ∷ 68_977_854 ∷ 74_296_395
    ∷ 80_025_023 ∷ 86_195_357 ∷ 92_841_455 ∷ 100_000_000 ∷ 107_710_506 ∷ 116_015_530 ∷ 124_960_914
    ∷ 134_596_032 ∷ 144_974_067 ∷ 156_152_301 ∷ 168_192_433 ∷ 181_160_920 ∷ 195_129_342
    ∷ 210_174_801 ∷ 226_380_341 ∷ 243_835_410 ∷ 262_636_352 ∷ 282_886_943 ∷ 304_698_957
    ∷ 328_192_787 ∷ 353_498_110 ∷ 380_754_602 ∷ 410_112_707 ∷ 441_734_470 ∷ 475_794_432
    ∷ 512_480_588 ∷ 551_995_432 ∷ 594_557_071 ∷ 640_400_427 ∷ 689_778_538 ∷ 742_963_951
    ∷ 800_250_228 ∷ 861_953_567 ∷ 928_414_545 ∷ 1_000_000_000 ∷ 1_077_105_056 ∷ 1_160_155_302
    ∷ 1_249_609_141 ∷ 1_345_960_324 ∷ 1_449_740_670 ∷ 1_561_523_006 ∷ 1_681_924_325 ∷ 1_811_609_194
    ∷ 1_951_293_423 ∷ 2_101_748_012 ∷ 2_263_803_410 ∷ 2_438_354_099 ∷ 2_626_363_528 ∷ 2_828_869_435
    ∷ 3_046_989_571 ∷ 3_281_927_873 ∷ 3_534_981_105 ∷ 3_807_546_022 ∷ 4_101_127_071 ∷ 4_417_344_703
    ∷ 4_757_944_314 ∷ 5_124_805_877 ∷ 5_519_954_321 ∷ 5_945_570_708 ∷ 6_404_004_271 ∷ 6_897_785_380
    ∷ 7_429_639_508 ∷ 8_002_502_278 ∷ 8_619_535_665 ∷ 9_284_145_445 ∷ 10_000_000_000 ∷ []
