-- ===== src/Drivedb/Table/Ata09.antt =====
-- backends/exec/drivedb.h, lines 5119 to 5268.
use Prim.Native.String.{String}

unfoldable pub ata_text_09 : String
ata_text_09 =
    "    \"-v 169,raw48,Total_Bad_Blocks \"\n    \"-v 170,raw48,Grown_Bad_Blocks \"\n    \"-v 171,raw48,Program_Fail_Count \"\n    \"-v 172,raw48,Erase_Fail_Count \"\n    \"-v 173,raw48,Average_PE_Cycles_TLC \"\n    \"-v 174,raw48,Unexpected_Power_Loss \"\n  //\"-v 184,raw48,End-to-End_Error \" // Detection/Correction Count\n  //\"-v 187,raw48,Reported_Uncorrect \" // Uncorrectable Errors\n  //\"-v 188,raw48,Command_Timeout \"\n  //\"-v 194,tempminmax,Temperature_Celsius \"\n  //\"-v 199,raw48,UDMA_CRC_Error_Count \" // SATA CRC Errors\n    \"-v 230,hex48,Media_Wearout_Indicator \" // Maybe hex16\n  //\"-v 232,raw48,Available_Reservd_Space\"\n    \"-v 233,raw48,NAND_GB_Written_TLC \"\n    \"-v 234,raw48,NAND_GB_Written_SLC \"\n    \"-v 241,raw48,Host_Writes_GiB \"\n    \"-v 242,raw48,Host_Reads_GiB \"\n    \"-v 244,raw48,Temp_Throttle_Status \"\n  },\n  { \"Western Digital Protege\",\n  /* Western Digital drives with this comment all appear to use Attribute 9 in\n   * a  non-standard manner.  These entries may need to be updated when it\n   * is understood exactly how Attribute 9 should be interpreted.\n   * UPDATE: this is probably explained by the WD firmware bug described in the\n   * smartmontools FAQ */\n    \"WDC WD([2468]00E|1[26]00A)B-.*\",\n    \"\", \"\", \"\"\n  },\n  { \"Western Digital Caviar\",\n  /* Western Digital drives with this comment all appear to use Attribute 9 in\n   * a  non-standard manner.  These entries may need to be updated when it\n   * is understood exactly how Attribute 9 should be interpreted.\n   * UPDATE: this is probably explained by the WD firmware bug described in the\n   * smartmontools FAQ */\n    \"WDC WD(2|3|4|6|8|10|12|16|18|20|25)00BB-.*\",\n    \"\", \"\", \"\"\n  },\n  { \"Western Digital Caviar WDxxxAB\",\n  /* Western Digital drives with this comment all appear to use Attribute 9 in\n   * a  non-standard manner.  These entries may need to be updated when it\n   * is understood exactly how Attribute 9 should be interpreted.\n   * UPDATE: this is probably explained by the WD firmware bug described in the\n   * smartmontools FAQ */\n    \"WDC WD(3|4|6|8|25)00AB-.*\",\n    \"\", \"\", \"\"\n  },\n  { \"Western Digital Caviar WDxxxAA\",\n  /* Western Digital drives with this comment all appear to use Attribute 9 in\n   * a  non-standard manner.  These entries may need to be updated when it\n   * is understood exactly how Attribute 9 should be interpreted.\n   * UPDATE: this is probably explained by the WD firmware bug described in the\n   * smartmontools FAQ */\n    \"WDC WD...?AA(-.*)?\",\n    \"\", \"\", \"\"\n  },\n  { \"Western Digital Caviar WDxxxBA\",\n  /* Western Digital drives with this comment all appear to use Attribute 9 in\n   * a  non-standard manner.  These entries may need to be updated when it\n   * is understood exactly how Attribute 9 should be interpreted.\n   * UPDATE: this is probably explained by the WD firmware bug described in the\n   * smartmontools FAQ */\n    \"WDC WD...BA\",\n    \"\", \"\", \"\"\n  },\n  { \"Western Digital Caviar AC\", // add only 5400rpm/7200rpm (ata33 and faster)\n    \"WDC AC((116|121|125|225|132|232)|([1-4][4-9][0-9])|([1-4][0-9][0-9][0-9]))00[A-Z]?.*\",\n    \"\", \"\", \"\"\n  },\n  { \"Western Digital Caviar SE\",\n  /* Western Digital drives with this comment all appear to use Attribute 9 in\n   * a  non-standard manner.  These entries may need to be updated when it\n   * is understood exactly how Attribute 9 should be interpreted.\n   * UPDATE: this is probably explained by the WD firmware bug described in the\n   * smartmontools FAQ\n   * UPDATE 2: this does not apply to more recent models, at least WD3200AAJB */\n    \"WDC WD(4|6|8|10|12|16|18|20|25|30|32|40|50)00(JB|PB)-.*\",\n    \"\", \"\", \"\"\n  },\n  { \"Western Digital Caviar Blue EIDE\",  // WD Caviar SE EIDE\n    /* not completely accurate: at least also WD800JB, WD(4|8|20|25)00BB sold as Caviar Blue */\n    \"WDC WD(16|25|32|40|50)00AAJB-.*\",\n    \"\", \"\", \"\"\n  },\n  { \"Western Digital Caviar Blue EIDE\",  // WD Caviar SE16 EIDE\n    \"WDC WD(25|32|40|50)00AAKB-.*\",\n    \"\", \"\", \"\"\n  },\n  { \"Western Digital RE EIDE\",\n    \"WDC WD(12|16|25|32)00SB-.*\",\n    \"\", \"\", \"\"\n  },\n  { \"Western Digital PiDrive Foundation Edition\", // WDC WD3750LMCW-11D9GS3\n    \"WDC WD(3750|2500)LMCW-.*\",\n    \"\", \"\", \"\"\n  },\n  { \"Western Digital Caviar Serial ATA\",\n    \"WDC WD(4|8|20|32)00BD-.*\",\n    \"\", \"\", \"\"\n  },\n  { \"Western Digital Caviar SE Serial ATA\", // tested with WDC WD3000JD-98KLB0/08.05J08\n    \"WDC WD(4|8|12|16|20|25|30|32|40)00(JD|KD|PD)-.*\",\n    \"\", \"\", \"\"\n  },\n  { \"Western Digital Caviar SE Serial ATA\",\n    \"WDC WD(8|12|16|20|25|30|32|40|50)00JS-.*\",\n    \"\", \"\", \"\"\n  },\n  { \"Western Digital Caviar SE16 Serial ATA\",\n    \"WDC WD(16|20|25|32|40|50|75)00KS-.*\",\n    \"\", \"\", \"\"\n  },\n  { \"Western Digital Caviar Blue Serial ATA\",  // WD Caviar SE Serial ATA\n    /* not completely accurate: at least also WD800BD, (4|8)00JD sold as Caviar Blue */\n    \"WDC WD((8|12|16|25|32)00AABS|(8|12|16|25|32|40|50)00AAJS)-.*\",\n    \"\", \"\", \"\"\n  },\n  { \"Western Digital Caviar Blue (SATA)\",  // WD Caviar SE16 Serial ATA\n      // tested with WD1602ABKS-18N8A0/DELL/02.03B04\n    \"WDC WD((16|20|25|32|40|50|64|75)00AAKS|1602ABKS|10EALS)-.*\",\n    \"\", \"\", \"\"\n  },\n  { \"Western Digital Blue (CMR)\", // tested with WDC WD5000AZLX-00K4KA0/80.00A80,\n      // WDC WD10EZEX-00RKKA0/80.00A80, WDC WD10EZEX-75M2NA0/01.01A01,\n      // WDC WD40EZRZ-00WN9B0/80.00A80, WDC WD80EAZZ-00BKLB0/80.00A80,\n      // APPLE HDD WDC WD10EALX-408EA0/07.01D03\n    \"(APPLE HDD )?WDC WD((25|32|50)00AAKX|5000AZ(LX|RZ)|7500A(AL|ZE)X|[123468]0E(ALX|A[ARZ]Z|Z[AE]X|ZRZ))-.*\",\n    \"\", \"\", \"\"\n  },\n  { \"Western Digital Blue (SMR)\", // tested with WDC WD40EZAZ-00SF3B0/80.00A80 (TRIM: zeroed),\n      // WDC WD40EDAZ-11SLVB0/80.00A80\n    \"WDC WD[2346]0E(DAZ|ZAZ|ZBX)-.*\", // *EDAZ: White label, MyBook\n    \"\",\n    \"Data recovery specialists reported serious problems with\\n\"\n    \"older WD SMR HDDs: https://www.heise.de/-10800960.html\",\n    \"\"\n  },\n  { \"Western Digital RE Serial ATA\",\n    \"WDC WD(12|16|25|32)00(SD|YD|YS)-.*\",\n    \"\", \"\", \"\"\n  },\n  { \"Western Digital RE2 Serial ATA\",\n    \"WDC WD((40|50|75)00(YR|YS|AYYS)|(16|32|40|50)0[01]ABYS)-.*\",\n    \"\", \"\", \"\"\n  },\n  { \"Western Digital RE2-GP\",\n    \"WDC WD(5000AB|7500AY|1000FY)PS-.*\",\n    \"\", \"\", \"\"\n  },\n  { \"Western Digital RE3 Serial ATA\", // tested with WDC WD7502ABYS-02A6B0/03.00C06,\n      // WD1002FBYS-12/03.M0300"
