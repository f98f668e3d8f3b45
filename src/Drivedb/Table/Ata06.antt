-- ===== src/Drivedb/Table/Ata06.antt =====
-- backends/exec/drivedb.h, lines 4669 to 4818.
use Prim.Native.String.{String}

unfoldable pub ata_text_06 : String
ata_text_06 =
    "  },\n  { \"Seagate Barracuda ES.2\", // buggy firmware (Dell)\n    \"ST3(25031|50032|75033|100034)0NS\",\n    \"MA07\",\n    \"There are known problems with these drives,\\n\"\n    \"AND THIS FIRMWARE VERSION IS AFFECTED,\\n\"\n    \"contact Dell support for a firmware update.\",\n    \"\"\n  },\n  { \"Seagate Barracuda ES.2\", // unknown firmware\n    \"ST3(25031|50032|75033|100034)0NS\",\n    \"\",\n    \"There are known problems with these drives,\\n\"\n    \"see the following Seagate web pages:\\n\"\n    \"https://knowledge.seagate.com/articles/en_US/FAQ/207931en\\n\"\n    \"https://knowledge.seagate.com/articles/en_US/FAQ/207963en\",\n    \"\"\n  },\n  { \"Seagate BarraCuda Pro\", // tested with ST4000DM006-2G5107/DN02, ST8000DM0004-1ZC11G/DN01,\n      // ST10000DM0004-1ZC101/DN01, // ST12000DM0007-2GR116/DN01\n    \"ST(2000DM009|4000DM006|6000DM004|8000DM00(5|04)|10000DM0004|12000DM0007)-.*\",\n    \"\", \"\",\n    \"-v 9,msec24hour32 -v 188,raw16 \"\n    \"-v 200,raw48,Pressure_Limit \"\n    \"-v 240,msec24hour32\"\n  },\n  { \"Seagate BarraCuda 3.5 (CMR+HAMR)\", // tested with ST26000DM000-3Y8103/EN03\n      // HAMR based BarraCuda, similar to Exos M series\n      // ST16000DM001-3Y4103/DN01\n      // ST20000DM001-3Y3103/DN01 /EN03\n      // ST22000DM000-3Y6103/EN03\n      // ST24000DM001-3Y7103/DN01 /EN03\n      // ST26000DM000-3Y8103/EN03\n      // ST28000DM000-3Y9103/EN03\n    \"ST(16|20|22|24|26|28)000DM00[01]-3Y.103\",\n    \"\", \"\",\n    \"-v 1,raw24/raw32 -v 7,raw24/raw32 \"\n    \"-v 18,raw48,Head_Health \"\n    \"-v 188,raw16 \"\n    \"-v 200,raw48,Pressure_Limit \"\n    \"-v 240,msec24hour32\"\n  },\n  { \"Seagate Constellation (SATA)\", // tested with ST9500530NS/SN03\n    \"ST9(160511|500530)NS\",\n    \"\", \"\", \"\"\n  },\n  { \"Seagate Constellation ES (SATA)\", // tested with ST31000524NS/SN11,\n      // MB0500EAMZD/HPG1\n    \"ST3(50051|100052|200064)4NS|\"\n    \"MB0500EAMZD\", // HP OEM\n    \"\", \"\", \"\"\n  },\n  { \"Seagate Constellation ES (SATA 6Gb/s)\", // tested with ST1000NM0011/SN02,\n      // MB1000GCEEK/HPG1\n    \"ST(5|10|20)00NM0011|\"\n    \"MB1000GCEEK\", // HP OEM\n    \"\", \"\", \"\"\n  },\n  { \"Seagate Constellation ES.2 (SATA 6Gb/s)\", // tested with ST32000645NS/0004, ST33000650NS,\n      // \"ST33000650NS         81Y9799 81Y3865IBM/BB3A\", MB3000EBKAB/HPG6,\n    \"ST3(2000645|300065[012])NS( .*IBM)?|\"\n    \"MB3000EBKAB\", // HP OEM\n    \"\", \"\", \"\"\n  },\n  { \"Seagate Constellation ES.3\", // tested with ST1000NM0033-9ZM173/0001,\n      // ST4000NM0033-9ZM170/SN03, MB1000GCWCV/HPGC, MB4000GCWDC/HPGE\n    \"ST[1234]000NM00[35]3-.*|\"\n    \"MB[14]000GCW(CV|DC)\", // HP OEM\n    \"\", \"\", \"\"\n  },\n  { \"Seagate Constellation CS\", // tested with ST3000NC000/CE02, ST3000NC002-1DY166/CN02\n    \"ST(1000|2000|3000)NC00[0-3](-.*)?\",\n    \"\", \"\", \"\"\n  },\n  { \"Seagate Constellation.2 (SATA)\", // 2.5\", tested with ST91000640NS/SN02, MM1000GBKAL/HPGB\n    \"ST9(25061|50062|100064)[012]NS|\" // *SS = SAS\n    \"MM1000GBKAL\", // HP OEM\n    \"\", \"\", \"\"\n  },\n  // ST6000NM0004, ST6000NM0024, ST6000NM0044, ST6000NM0084, ST5000NM0024,\n  // ST5000NM0044, ST4000NM0024, ST4000NM0044, ST2000NM0024, ST2000NM0044\n  // ST4000NM0035, ST3000NM0005, ST2000NM0055, ST1000NM0055, ST4000NM0045,\n  // ST3000NM0015, ST2000NM0065, ST1000NM0065, ST4000NM0105, ST3000NM0055\n  { \"Seagate Enterprise Capacity 3.5 HDD\", // tested with ST6000NM0024-1HT17Z/SN02,\n      // ST10000NM0016-1TT101/SNB0\n      // ST4000NM0085-1YY107/ZC11SXPH\n      // ST8000NM0045-1RL112/NN02\n      // ST6000NM0004-1FT17Z/NN01\n      // ST4000NM0035-1V4107/TNC3\n      // ST1000NM0055-1V410C/TN02\n      // ST8000NM0055-1RM112/SN04\n      // ST10000NM0156-2AA111/SS05, ST4000NM0245-1Z2107/SS05\n    \"ST([1234568]|10)000NM0[012][0-68][456]-.*\", // *[069]4 = 4Kn\n    \"\", \"\",\n    \"-v 200,raw48,Pressure_Limit \"\n    \"-v 188,raw16 -v 240,msec24hour32\"\n  },\n  { \"Seagate Enterprise Capacity 3.5 HDD\", // V5.1, ms in attribute 9\n    \"ST[12]000NM0008-.*\", // tested with ST1000NM0008-2F2100/SN01\n    \"\", \"\",\n    \"-v 9,msec24hour32 -v 188,raw16 -v 240,msec24hour32\"\n  },\n  { \"Seagate Enterprise Capacity 3.5 HDD v7 SED\", // tested with ST12000NM0127/G005\n    \"ST12000NM01[12]7\",\n    \"\", \"\",\n    \"-v 1,raw24/raw32 -v 7,raw24/raw32 \"\n    \"-v 195,raw24/raw32,Hardware_ECC_Recovered \"\n  },\n  { \"Seagate Exos 5E8\", // tested with ST8000AS0003-2HH188/0003\n    \"ST8000AS0003-.*\",\n    \"\", \"\",\n    \"-v 9,msec24hour32 -v 240,msec24hour32\"\n  },\n  // ST1000NM000A, ST1000NM002A, ST2000NM000A, ST2000NM001A, ST2000NM002A,\n  // ST3000NM000A, ST3000NM004A, ST4000NM000A, ST4000NM001A, ST4000NM002A,\n  // ST4000NM006A, ST4000NM010A, ST4000NM012A, ST4000NM013A, ST6000NM002A,\n  // ST6000NM021A, ST6000NM022A, ST6000NM025A, ST6000NM026A, ST8000NM000A,\n  // ST8000NM002A, ST8000NM004A, ST8000NM008A, ST8000NM009A, ST8000NM016A\n  { \"Seagate Exos 7E8\", // tested with ST4000NM000A-2HZ100/TN03, ST6000NM021A-2R7101/SN02,\n      // ST8000NM000A-2KE101/SN02, OOS6000G/OOS1\n    \"ST[123468]000NM0(0[01234689]|1[0236]|2[1256])A-.*|\"\n    \"OOS6000G\", // 6TB refurbished and rebranded\n    \"\", \"\",\n    \"-v 18,raw48,Head_Health \"\n    \"-v 188,raw16 \"\n    \"-v 240,msec24hour32\"\n  },\n  { \"Seagate Exos X12\", // tested with ST12000NM0007-2A1101/SN02\n    \"ST12000NM00[01]7-.*\", // *17 = SED\n    \"\", \"\",\n    \"-v 200,raw48,Pressure_Limit \"\n    \"-v 240,msec24hour32\"\n  },\n  { \"Seagate Exos X14\", // tested with ST12000NM0008-2H3101/SN02,\n      // ST12000NM0538-2K2101/CMA2 (OEM?)\n    \"ST(14000NM04[24]8|14000NM0(01|25)8|12000NM0(00|24|53)8|10000NM0(47|56)8)-.*\",\n    \"\", \"\",\n    \"-v 18,raw48,Head_Health \"\n    \"-v 200,raw48,Pressure_Limit \"\n    \"-v 240,msec24hour32\"\n  },\n  { \"Seagate Exos X16\", // tested with ST10000NM001G-2MW103/SN02\n      // ST14000NM001G-2KJ103/SN02, ST14000NM001G-2KJ1037/SN04, ST16000NM001G-2KK103/SN02,\n      // ST16000NM001G-2KK103/SN03\n    \"ST1[0246]000NM00[13]G-.*\",\n    \"\", \"\",\n    \"-v 1,raw24/raw32 -v 7,raw24/raw32 \"\n    \"-v 18,raw48,Head_Health \"\n    \"-v 188,raw16 \"\n    \"-v 200,raw48,Pressure_Limit \""
